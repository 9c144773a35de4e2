-- ===== src/Compiler/Strictness/Tables.antt =====
-- The table of supercombinators under the changes of the strictness analyser.
use nreduce.Base.{
  ℕ, zero, suc, Bool, true, false, ◌||◌, ◌≡◌, refl, sym, ap, subst, List, [], ◌∷◌, length,
  get_elem?, Option, some, ◌>>=◌, >>=-eq-some, assert, ltb, str_eq, str_eq_iff, str_eq_refl,
  Bool-cases, inl, inr, arith, ◌⊎◌, ◌↔◌, ◌==◌, ==_iff,
}
use nreduce.Compiler.Syntax.{
  Name, Snode, application, lambda, builtin, symbol, letrec, scref, nil, number, string,
}
use nreduce.Compiler.Scombs.{Scomb}
use nreduce.Compiler.Evaluation.{Closure, Super, lookup, bind_args}
use nreduce.Compiler.Strictness.{flag, fun_nargs, fun_strictin}
use nreduce.Compiler.Strictness.Lists.{has_name}
use nreduce.Compiler.Strictness.Marks.{clear, program, IsDistinct}
use nreduce.Compiler.Strictness.Analysis.{new_strictin, set_elem}

pub has_name-at : (l : List Name) (i : ℕ) (x : Name) → get_elem? l i ≡ some x → has_name l x ≡ true
unfolding has_name
has_name-at [] i x e = cc
has_name-at (y ∷ l) zero x e = ground (arith, str_eq_iff y x)
has_name-at (y ∷ l) (suc i) x e = ground (arith, has_name-at l i x)

-- Each parameter is bound to its argument.
pub lookup-bind_args :
    (params : List Name) (st : List Closure) (i : ℕ) (x : Name) (c : Closure)
    → IsDistinct params
    → get_elem? params i ≡ some x
    → get_elem? st i ≡ some c
    → lookup (bind_args params st) x ≡ some c
unfolding lookup bind_args has_name
lookup-bind_args [] st i x c d e f = cc
lookup-bind_args (p ∷ params) [] i x c d e f = cc
lookup-bind_args (p ∷ params) (a ∷ st) zero x c d e f = cc (str_eq_refl p)
lookup-bind_args (p ∷ params) (a ∷ st) (suc i) x c d e f =
    let later : lookup (bind_args params st) x ≡ some c =
      lookup-bind_args params st i x c d.1 e f in
    elim (Bool-cases (str_eq p x)) [
      | inl same ↦ cc (has_name-at params i x e, ap (has_name params) ((str_eq_iff p x).0 same))
      | inr other ↦ ground arith
    ]

pub new_strictin-cons :
    (x : Name) (argnames : List Name) (b : Bool) (old : List Bool) (used : List Name)
    (rest : List Bool) (i : ℕ)
    → ((j : ℕ)
        → new_strictin argnames old used ≡ some rest
        → get_elem? rest j ≡ some true
        → (get_elem? old j ≡ some true)
          ⊎ ((y : Name) × (get_elem? argnames j ≡ some y) × (has_name used y ≡ true)))
    → new_strictin argnames old used ≡ some rest
    → get_elem? ((b || has_name used x) ∷ rest) i ≡ some true
    → (get_elem? (b ∷ old) i ≡ some true)
      ⊎ ((y : Name) × (get_elem? (x ∷ argnames) i ≡ some y) × (has_name used y ≡ true))
new_strictin-cons x argnames true old used rest zero ih n e = inl refl
new_strictin-cons x argnames false old used rest zero ih n e = inr (x, refl, cc)
new_strictin-cons x argnames b old used rest (suc i) ih n e = ih i n e

pub new_strictin-at :
    (argnames : List Name) (old : List Bool) (used : List Name) (strictin : List Bool) (i : ℕ)
    → new_strictin argnames old used ≡ some strictin
    → get_elem? strictin i ≡ some true
    → (get_elem? old i ≡ some true)
      ⊎ ((x : Name) × (get_elem? argnames i ≡ some x) × (has_name used x ≡ true))
unfolding new_strictin
new_strictin-at [] old used strictin i h e = cc
new_strictin-at (x ∷ argnames) [] used strictin i h e = cc
new_strictin-at (x ∷ argnames) (b ∷ old) used strictin i h e =
    let (rest, e1, h1) = >>=-eq-some (new_strictin argnames old used) _ h in
    new_strictin-cons x argnames b old used rest i (λ j. new_strictin-at argnames old used rest j)
      e1
      (subst (λ (l : List Bool). get_elem? l i ≡ some true) {y = (b || has_name used x) ∷ rest} (cc)
        e)

pub set_elem-same :
    (scombs : List Scomb) (i : ℕ) (sc : Scomb) (old : Scomb)
    → get_elem? scombs i ≡ some old
    → get_elem? (set_elem scombs i sc) i ≡ some sc
set_elem-same [] i sc old e = cc
set_elem-same (s ∷ scombs) zero sc old e = refl
set_elem-same (s ∷ scombs) (suc i) sc old e = set_elem-same scombs i sc old e

pub set_elem-hit :
    (scombs : List Scomb) (i j : ℕ) (sc old t : Scomb)
    → get_elem? scombs i ≡ some old
    → (i == j) ≡ true
    → get_elem? (set_elem scombs i sc) j ≡ some t
    → sc ≡ t
set_elem-hit scombs i j sc old t e same f =
    let here : get_elem? (set_elem scombs i sc) j ≡ some sc =
      subst (λ (k : ℕ). get_elem? (set_elem scombs i sc) k ≡ some sc) ((==_iff i j).0 same)
        (set_elem-same scombs i sc old e) in
    cc

pub set_elem-other :
    (scombs : List Scomb) (i j : ℕ) (sc : Scomb)
    → (i == j) ≡ false
    → get_elem? (set_elem scombs i sc) j ≡ get_elem? scombs j
set_elem-other [] i j sc n = refl
set_elem-other (s ∷ scombs) zero zero sc n = cc
set_elem-other (s ∷ scombs) zero (suc j) sc n = refl
set_elem-other (s ∷ scombs) (suc i) zero sc n = refl
set_elem-other (s ∷ scombs) (suc i) (suc j) sc n = set_elem-other scombs i j sc (ground arith)

pub program-at :
    (scombs : List Scomb) (i : ℕ) (sc : Scomb)
    → get_elem? scombs i ≡ some sc
    → get_elem? (program scombs) i ≡ some (record { params = sc.argnames; code = clear sc.body })
unfolding program
program-at [] i sc e = cc
program-at (s ∷ scombs) zero sc e =
    ap (λ (o : Option Scomb). o >>= λ t. some (record { params = t.argnames; code = clear t.body }))
      e
program-at (s ∷ scombs) (suc i) sc e = program-at scombs i sc e

pub fun_strictin-scref :
    (scombs : List Scomb) (j i : ℕ) (sc : Scomb) (flags : List Bool)
    → get_elem? scombs j ≡ some sc
    → sc.strictin ≡ some flags
    → (fun_strictin scombs (scref j) i ≡ some true)
      ↔ ((ltb i (length sc.argnames) ≡ true) × (get_elem? flags i ≡ some true))
unfolding fun_strictin
fun_strictin-scref scombs j i sc flags e f = (
  λ h.
      let (s, e1, h1) = >>=-eq-some (get_elem? scombs j) _ h in
      let (u, e2, h2) = >>=-eq-some (assert (ltb i (length s.argnames))) _ h1 in
      let (fl, e3, h3) = >>=-eq-some s.strictin _ h2 in
      let same : s ≡ sc = cc in
      let named : length s.argnames ≡ length sc.argnames =
        ap (λ (t : Scomb). length t.argnames) same in
      let flagged : s.strictin ≡ sc.strictin = ap (λ (t : Scomb). t.strictin) same in
      let both : fl ≡ flags = cc in
      (ground arith, subst (λ (l : List Bool). get_elem? l i ≡ some true) both h3),
  λ (l, t). subst (λ (o : Option Scomb). (o >>= λ s. flag s i) ≡ some true) (sym e) (rw (l, f) t),
)

-- A new body and new flags for one supercombinator.
abbrev pub update : Scomb → Snode → List Bool → Scomb
update sc body strictin = record sc { body = body; strictin = some strictin }

pub program-set_elem :
    (scombs : List Scomb) (i : ℕ) (sc : Scomb) (body : Snode) (strictin : List Bool)
    → get_elem? scombs i ≡ some sc
    → clear body ≡ clear sc.body
    → program (set_elem scombs i (update sc body strictin)) ≡ program scombs
unfolding program
program-set_elem [] i sc body strictin e c = cc
program-set_elem (s ∷ scombs) zero sc body strictin e c =
    let same : s ≡ sc = cc in
    subst
      (λ (t : Scomb).
        record { params = sc.argnames; code = clear body } ∷ program scombs
        ≡ record { params = t.argnames; code = clear t.body } ∷ program scombs)
      (sym same) (ap (λ (d : Snode). record { params = sc.argnames; code = d } ∷ program scombs) c)
program-set_elem (s ∷ scombs) (suc i) sc body strictin e c =
    ap (λ (p : List Super). record { params = s.argnames; code = clear s.body } ∷ p)
      (program-set_elem scombs i sc body strictin e c)

pub fun_nargs-set_elem :
    (scombs : List Scomb) (i : ℕ) (sc : Scomb) (body : Snode) (strictin : List Bool)
    → get_elem? scombs i ≡ some sc
    → (f : Snode) → fun_nargs (set_elem scombs i (update sc body strictin)) f ≡ fun_nargs scombs f
unfolding fun_nargs
fun_nargs-set_elem scombs i sc body strictin e (scref j) = elim (Bool-cases (i == j)) [
  | inr other ↦ rw (set_elem-other scombs i j (update sc body strictin) other) refl
  | inl same ↦
      subst
        (λ (k : ℕ).
          fun_nargs (set_elem scombs i (update sc body strictin)) (scref k)
          ≡ fun_nargs scombs (scref k))
        ((==_iff i j).0 same) (rw (set_elem-same scombs i (update sc body strictin) sc e, e) refl)
]
fun_nargs-set_elem scombs i sc body strictin e (application l r strict) = refl
fun_nargs-set_elem scombs i sc body strictin e (lambda name b) = refl
fun_nargs-set_elem scombs i sc body strictin e (builtin bif) = refl
fun_nargs-set_elem scombs i sc body strictin e (symbol name) = refl
fun_nargs-set_elem scombs i sc body strictin e (letrec rec b) = refl
fun_nargs-set_elem scombs i sc body strictin e nil = refl
fun_nargs-set_elem scombs i sc body strictin e (number num) = refl
fun_nargs-set_elem scombs i sc body strictin e (string value) = refl
