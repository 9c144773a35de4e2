-- ===== src/Compiler/Strictness/Correct.antt =====
-- The strictness analysis of a program whose marks are not set yet.
use nreduce.Base.{
  ℕ, zero, suc, Bool, true, false, ◌≡◌, refl, sym, ap, ap₂, subst, List, [], ◌∷◌, length, get_elem?,
  assert, ltb, none, some, >>=-eq-some, arith,
}
use nreduce.Compiler.Syntax.{
  Name, Snode, application, lambda, builtin, symbol, letrec, scref, nil, number, string, Letrec,
  done, binding,
}
use nreduce.Compiler.Scombs.{Scomb}
use nreduce.Compiler.Evaluation.{Super, Delta}
use nreduce.Compiler.Strictness.{fun_strictin, flag}
use nreduce.Compiler.Strictness.Marks.{clear, clear_values, is_marked, IsDistinct, program}
use nreduce.Compiler.Strictness.Letrecs.{bound_names-clear_values}
use nreduce.Compiler.Strictness.Demand.{Informed, Sound, SoundValues, builtin-StrictFun}
use nreduce.Compiler.Strictness.Wellformed.{IsReady, AreReady}
use nreduce.Compiler.Strictness.Analysis.{
  all_false, set_flags, init_strictin, strictness_analysis, unmarked_scombs,
}
use nreduce.Compiler.Strictness.Returns.{AreRunnable, analysis_rounds-returns}
use nreduce.Compiler.Strictness.Programs.{SoundProgram, SoundScomb, analysis_rounds-SoundProgram}

-- A supercombinator before the analysis: no flags, no marks, no parameter twice, and a lifted body.
abbrev pub IsFresh : ℕ → Scomb → Type 0
IsFresh n sc =
    (sc.strictin ≡ none) × IsDistinct sc.argnames × (clear sc.body ≡ sc.body) × IsReady n sc.body

abbrev pub AreFresh : ℕ → List Scomb → Type 0
AreFresh n [] = Unit
AreFresh n (sc ∷ scombs) = IsFresh n sc × AreFresh n scombs

abbrev with_flags : Scomb → Scomb
with_flags sc = record sc { strictin = some (all_false sc.argnames) }

set_flags-none : (sc : Scomb) → sc.strictin ≡ none → set_flags sc sc.strictin ≡ with_flags sc
set_flags-none sc e = ap (set_flags sc) e

init_strictin-at :
    (n : ℕ) (scombs : List Scomb) (i : ℕ) (sc' : Scomb)
    → AreFresh n scombs
    → get_elem? (init_strictin scombs) i ≡ some sc'
    → (sc : Scomb) × (get_elem? scombs i ≡ some sc) × IsFresh n sc × (sc' ≡ with_flags sc)
unfolding init_strictin
init_strictin-at n [] i sc' f e = cc
init_strictin-at n (s ∷ scombs) zero sc' f e = (s, refl, f.0, cc (set_flags-none s f.0.0))
init_strictin-at n (s ∷ scombs) (suc i) sc' f e = init_strictin-at n scombs i sc' f.1 e

init_strictin-program :
    (scombs : List Scomb)
    → (n : ℕ) → AreFresh n scombs
    → program (init_strictin scombs) ≡ program scombs
unfolding program init_strictin
init_strictin-program [] n f = refl
init_strictin-program (sc ∷ scombs) n f =
    ap₂
      (λ (s : Scomb) (rest : List Super).
        record { params = s.argnames; code = clear s.body } ∷ rest)
      (set_flags-none sc f.0.0) (init_strictin-program scombs n f.1)

length-init_strictin : (scombs : List Scomb) → length (init_strictin scombs) ≡ length scombs
unfolding init_strictin
length-init_strictin [] = refl
length-init_strictin (sc ∷ scombs) = ap suc (length-init_strictin scombs)

length-all_false : (argnames : List Name) → length (all_false argnames) ≡ length argnames
length-all_false [] = refl
length-all_false (x ∷ argnames) = ap suc (length-all_false argnames)

all_false-at : (argnames : List Name) (i : ℕ) → get_elem? (all_false argnames) i ≡ some true → ⊥
all_false-at [] i h = cc
all_false-at (x ∷ argnames) zero h = cc
all_false-at (x ∷ argnames) (suc i) h = all_false-at argnames i h

init_strictin-AreRunnable :
    (n : ℕ) (scombs : List Scomb) → AreFresh n scombs → AreRunnable n (init_strictin scombs)
unfolding init_strictin
init_strictin-AreRunnable n [] f = tt
init_strictin-AreRunnable n (sc ∷ scombs) f = (
  subst
      (λ (s : Scomb).
        IsReady n (clear s.body)
        × ((flags : List Bool) × (s.strictin ≡ some flags) × (length flags ≡ length s.argnames)))
      (sym (set_flags-none sc f.0.0))
      (
        subst (IsReady n) (sym f.0.2) f.0.3,
        (all_false sc.argnames, refl, length-all_false sc.argnames),
      ),
  init_strictin-AreRunnable n scombs f.1,
)

is_marked-clear_values : (rec : Letrec) (y : Name) → is_marked (clear_values rec) y ≡ false
unfolding is_marked clear_values
is_marked-clear_values done y = refl
is_marked-clear_values (binding name value strict rest) y = is_marked-clear_values rest y

module _ (delta : Delta) (prog : List Super) (scombs : List Scomb) (n : ℕ) where
  mutual
    unfolding Sound SoundValues clear clear_values IsReady AreReady

    fresh : (c : Snode) → IsReady n c → Sound delta prog scombs (clear c)
    fresh (application l r strict) i = (λ e. cc, fresh l i.0, fresh r i.1)
    fresh (lambda name body) i = absurd i
    fresh (builtin bif) i = tt
    fresh (symbol name) i = tt
    fresh (letrec rec body) i = (
      subst IsDistinct (sym (bound_names-clear_values rec)) i.0,
      fresh_values rec i.1,
      fresh body i.2,
      λ y m. cc (is_marked-clear_values rec y),
    )
    fresh (scref sc) i = tt
    fresh nil i = tt
    fresh (number num) i = tt
    fresh (string value) i = tt

    fresh_values :
        (rec : Letrec) → AreReady n rec → SoundValues delta prog scombs (clear_values rec)
    fresh_values done i = tt
    fresh_values (binding name value strict rest) i = (fresh value i.0, fresh_values rest i.1)

-- Before the analysis nothing is promised.
pub init_strictin-Informed :
    (delta : Delta) (prog : List Super) (n : ℕ) (scombs : List Scomb)
    → AreFresh n scombs
    → Informed delta prog (init_strictin scombs)
unfolding fun_strictin
init_strictin-Informed delta prog n scombs a (builtin bif) i h =
    builtin-StrictFun delta prog (init_strictin scombs) bif i h
init_strictin-Informed delta prog n scombs a (scref j) i h =
    let (sc', e, h1) = >>=-eq-some (get_elem? (init_strictin scombs) j) _ h in
    let (sc, e1, f, same) = init_strictin-at n scombs j sc' a e in
    let h2 = subst (λ (s : Scomb). flag s i ≡ some true) same h1 in
    let (u, e2, h3) = >>=-eq-some (assert (ltb i (length sc.argnames))) _ h2 in
    absurd (all_false-at sc.argnames i h3)
init_strictin-Informed delta prog n scombs a (application l r strict) i h = cc
init_strictin-Informed delta prog n scombs a (lambda name b) i h = cc
init_strictin-Informed delta prog n scombs a (symbol name) i h = cc
init_strictin-Informed delta prog n scombs a (letrec rec b) i h = cc
init_strictin-Informed delta prog n scombs a nil i h = cc
init_strictin-Informed delta prog n scombs a (number num) i h = cc
init_strictin-Informed delta prog n scombs a (string value) i h = cc

pub init_strictin-SoundProgram :
    (delta : Delta) (n : ℕ) (scombs : List Scomb)
    → AreFresh n scombs
    → SoundProgram delta (program scombs) (init_strictin scombs)
init_strictin-SoundProgram delta n scombs a = record {
  same = init_strictin-program scombs n a;
  informed = init_strictin-Informed delta (program scombs) n scombs a;
  each = λ i sc' e.
      let (sc, e1, f, same) = init_strictin-at n scombs i sc' a e in
      subst (λ (s : Scomb). SoundScomb delta (program scombs) (init_strictin scombs) s) (sym same)
        (record {
          distinct = f.1;
          body =
              subst (λ (b : Snode). Sound delta (program scombs) (init_strictin scombs) b) f.2
                (fresh delta (program scombs) (init_strictin scombs) n sc.body f.3);
        });
}

-- The analysis of a program with no marks returns, and whatever the other built-in functions do: the
-- program is the same but for its marks; in a call of a supercombinator with all its arguments,
-- those flagged are evaluated whenever the call has a value; and so are the argument of each marked
-- application and the value of each marked binding whenever the application, in a call with all its
-- arguments, or the letrec has a value.
pub strictness_analysis-SoundProgram :
    (scombs : List Scomb)
    → AreFresh (length scombs) scombs
    → (scombs' : List Scomb) × (strictness_analysis scombs ≡ some scombs')
      × ((delta : Delta) → SoundProgram delta (program scombs) scombs')
unfolding strictness_analysis
strictness_analysis-SoundProgram scombs a =
    let start = init_strictin scombs in
    let runnable =
      subst (λ (n : ℕ). AreRunnable n start) (sym (length-init_strictin scombs))
        (init_strictin-AreRunnable (length scombs) scombs a) in
    let (scombs', e) =
      analysis_rounds-returns (suc (unmarked_scombs start)) start (omega arith) runnable in
    (
      scombs',
      e,
      λ delta.
          analysis_rounds-SoundProgram delta (program scombs) (suc (unmarked_scombs start)) start
            scombs' (init_strictin-SoundProgram delta (length scombs) scombs a) e,
    )
