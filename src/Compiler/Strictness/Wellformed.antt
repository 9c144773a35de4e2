-- ===== src/Compiler/Strictness/Wellformed.antt =====
-- The trees that the strictness analyser is run on: lifted, with references to what is there.
use nreduce.Base.{
  ℕ, zero, suc, ◌<◌, Bool, true, false, ◌≡◌, refl, sym, ap, subst, ◌∙◌, List, [], ◌∷◌, length,
  get_elem?, some, ltb, inl, inr, arith, ◌⊎◌, ◌==◌, Bool-cases, ==_iff,
}
use nreduce.Compiler.Syntax.{
  Snode, application, lambda, builtin, symbol, letrec, scref, nil, number, string, Letrec, done,
  binding, bound_names,
}
use nreduce.Compiler.Scombs.{Scomb}
use nreduce.Compiler.Builtins.{builtin_info}
use nreduce.Compiler.Evaluation.{b_if_index, b_seq_index}
use nreduce.Compiler.Strictness.{
  spine_fun, spine_nargs, fun_nargs, fun_strictin, is_function, is_saturated,
}
use nreduce.Compiler.Strictness.Marks.{clear, clear_values, IsDistinct}
use nreduce.Compiler.Strictness.Analysis.{size, size_values}

-- No lambdas; built-in functions and supercombinators that exist, of `n`; and no letrec that binds a
-- name twice.
unfoldable mutual
  pub IsReady : ℕ → Snode → Type 0
  IsReady n (application l r strict) = IsReady n l × IsReady n r
  IsReady n (lambda name body) = ⊥
  IsReady n (builtin bif) = bif < length builtin_info
  IsReady n (symbol name) = Unit
  IsReady n (letrec rec body) = IsDistinct (bound_names rec) × AreReady n rec × IsReady n body
  IsReady n (scref sc) = sc < n
  IsReady n nil = Unit
  IsReady n (number num) = Unit
  IsReady n (string value) = Unit

  pub AreReady : ℕ → Letrec → Type 0
  AreReady n done = Unit
  AreReady n (binding name value strict rest) = IsReady n value × AreReady n rest

mutual
  unfolding size size_values clear clear_values

  sized : (c : Snode) → size (clear c) ≡ size c
  sized (application l r strict) = omega (arith, sized l, sized r)
  sized (lambda name body) = ap suc (sized body)
  sized (builtin bif) = refl
  sized (symbol name) = refl
  sized (letrec rec body) = omega (arith, sized_values rec, sized body)
  sized (scref sc) = refl
  sized nil = refl
  sized (number num) = refl
  sized (string value) = refl

  sized_values : (rec : Letrec) → size_values (clear_values rec) ≡ size_values rec
  sized_values done = refl
  sized_values (binding name value strict rest) = omega (arith, sized value, sized_values rest)

pub size-clear : (c : Snode) → size (clear c) ≡ size c
size-clear = sized

-- The supercombinators have a flag for each argument.
abbrev pub HasFlags : Scomb → Type 0
HasFlags sc = (flags : List Bool) × (sc.strictin ≡ some flags) × (length flags ≡ length sc.argnames)

abbrev pub AreFlagged : List Scomb → Type 0
AreFlagged [] = Unit
AreFlagged (sc ∷ scombs) = HasFlags sc × AreFlagged scombs

pub get_elem?-lt {ℓ} :
    {A : Type ℓ} (l : List A) (i : ℕ) → i < length l → (a : A) × (get_elem? l i ≡ some a)
get_elem?-lt [] i h = absurd (omega arith)
get_elem?-lt (x ∷ l) zero h = (x, refl)
get_elem?-lt (x ∷ l) (suc i) h = get_elem?-lt l i (omega arith)

pub AreFlagged-at :
    (scombs : List Scomb) (i : ℕ) (sc : Scomb)
    → AreFlagged scombs
    → get_elem? scombs i ≡ some sc
    → HasFlags sc
AreFlagged-at [] i sc f e = cc
AreFlagged-at (s ∷ scombs) zero sc f e = subst HasFlags {x = s} {y = sc} (cc) f.0
AreFlagged-at (s ∷ scombs) (suc i) sc f e = AreFlagged-at scombs i sc f.1 e

-- A function that a lifted tree calls has a number of arguments, and a flag for each.
abbrev pub IsKnown : List Scomb → Snode → Type 0
IsKnown scombs f =
    (k : ℕ) × (fun_nargs scombs f ≡ some k)
    × ((i : ℕ) → i < k → (b : Bool) × (fun_strictin scombs f i ≡ some b))

pub scref-IsKnown :
    (scombs : List Scomb) (sc : ℕ)
    → AreFlagged scombs
    → sc < length scombs
    → IsKnown scombs (scref sc)
unfolding fun_nargs fun_strictin
scref-IsKnown scombs sc f h =
    let (s, e) = get_elem?-lt scombs sc h in
    let (flags, e1, l) = AreFlagged-at scombs sc s f e in
    (
      length s.argnames,
      rw e refl,
      λ i less. let (b, e2) = get_elem?-lt flags i (omega (arith, l)) in (b, ground arith),
    )

pub builtin-IsKnown :
    (scombs : List Scomb) (bif : ℕ) → bif < length builtin_info → IsKnown scombs (builtin bif)
unfolding fun_nargs fun_strictin
builtin-IsKnown scombs bif h =
    let (b, e) = get_elem?-lt builtin_info bif h in
    (b.nargs, rw e refl, λ i less. (ltb i b.nstrict, ground arith))

pub spine_fun-IsKnown :
    (scombs : List Scomb) (c : Snode)
    → AreFlagged scombs
    → IsReady (length scombs) (clear c)
    → is_function (spine_fun c) ≡ true
    → IsKnown scombs (spine_fun c)
unfolding spine_fun IsReady clear
spine_fun-IsKnown scombs (application l r strict) f i h = spine_fun-IsKnown scombs l f i.0 h
spine_fun-IsKnown scombs (lambda name body) f i h = cc
spine_fun-IsKnown scombs (builtin bif) f i h = builtin-IsKnown scombs bif i
spine_fun-IsKnown scombs (symbol name) f i h = cc
spine_fun-IsKnown scombs (letrec rec body) f i h = cc
spine_fun-IsKnown scombs (scref sc) f i h = scref-IsKnown scombs sc f i
spine_fun-IsKnown scombs nil f i h = cc
spine_fun-IsKnown scombs (number num) f i h = cc
spine_fun-IsKnown scombs (string value) f i h = cc

-- A call with all the arguments that its function takes, each with a flag.
abbrev pub IsCall : List Scomb → Snode → Type 0
IsCall scombs c =
    (i : ℕ) → i < spine_nargs c → (b : Bool) × (fun_strictin scombs (spine_fun c) i ≡ some b)

-- Whether a lifted tree is such a call is decided.
pub is_saturated-IsReady :
    (scombs : List Scomb) (c : Snode)
    → AreFlagged scombs
    → IsReady (length scombs) (clear c)
    → (is_saturated scombs c ≡ some false)
      ⊎ ((is_saturated scombs c ≡ some true)
          × (fun_nargs scombs (spine_fun c) ≡ some (spine_nargs c))
          × IsCall scombs c)
unfolding is_saturated
is_saturated-IsReady scombs c f l = elim (Bool-cases (is_function (spine_fun c))) [
  | inr isnt ↦ inl (rw isnt refl)
  | inl is ↦
      let (k, e, flags) = spine_fun-IsKnown scombs c f l is in
      elim (Bool-cases (spine_nargs c == k)) [
        | inr less ↦ inl (rw (is, e) (ap some less))
        | inl all ↦
            let same : k ≡ spine_nargs c = sym ((==_iff (spine_nargs c) k).0 all) in
            inr (
              rw (is, e) (ap some all),
              e ∙ ap some same,
              subst
                  (λ (n : ℕ).
                    (i : ℕ) → i < n → (b : Bool) × (fun_strictin scombs (spine_fun c) i ≡ some b))
                  same flags,
            )
      ]
]

-- A tree with arguments is an application.
pub spine_nargs-view :
    (c : Snode) (n : ℕ)
    → spine_nargs c ≡ suc n
    → (l : Snode) × (r : Snode) × (strict : Bool) × (c ≡ application l r strict)
      × (spine_nargs l ≡ n)
unfolding spine_nargs
spine_nargs-view (application l r strict) n h = (l, r, strict, refl, omega (arith, h))
spine_nargs-view (lambda name body) n h = absurd (omega arith)
spine_nargs-view (builtin bif) n h = absurd (omega arith)
spine_nargs-view (symbol name) n h = absurd (omega arith)
spine_nargs-view (letrec rec body) n h = absurd (omega arith)
spine_nargs-view (scref sc) n h = absurd (omega arith)
spine_nargs-view nil n h = absurd (omega arith)
spine_nargs-view (number num) n h = absurd (omega arith)
spine_nargs-view (string value) n h = absurd (omega arith)

pub fun_nargs-if :
    (scombs : List Scomb) (k : ℕ) → fun_nargs scombs (builtin b_if_index) ≡ some k → k ≡ 3
unfolding fun_nargs builtin_info
fun_nargs-if scombs k h = cc

pub fun_nargs-seq :
    (scombs : List Scomb) (k : ℕ) → fun_nargs scombs (builtin b_seq_index) ≡ some k → k ≡ 2
unfolding fun_nargs builtin_info
fun_nargs-seq scombs k h = cc
