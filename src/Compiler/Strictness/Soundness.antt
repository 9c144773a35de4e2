-- ===== src/Compiler/Strictness/Soundness.antt =====
-- The strictness analyser is right about what is evaluated: a tree, a supercombinator, a program.
use nreduce.Base.{
  ℕ, zero, suc, Bool, true, false, ◌≡◌, refl, sym, ap₂, subst, ◌∙◌, List, [], length, none, some,
  >>=-eq-some, str_eq, Bool-cases, inl, inr, arith, ◌⊎◌,
}
use nreduce.Compiler.Syntax.{
  Name, Snode, application, lambda, builtin, symbol, letrec, scref, nil, number, string, Letrec,
  bound_names,
}
use nreduce.Compiler.Scombs.{Scomb}
use nreduce.Compiler.Evaluation.{Env, recs, Closure, Value, Super, lookup, Delta, run}
use nreduce.Compiler.Strictness.Lists.{has_name}
use nreduce.Compiler.Strictness.Marks.{clear}
use nreduce.Compiler.Strictness.Demand.{Forced, Informed, Sound, Forced-more}
use nreduce.Base.{Option-cases, str_eq_iff}
use nreduce.Compiler.Evaluation.{find_value}
use nreduce.Compiler.Strictness.{check_rounds, add_free}
use nreduce.Compiler.Strictness.Lists.{add_var, has_name-add_var, add_var-IsSorted}
use nreduce.Compiler.Strictness.Steps.{DemandsAt, Step, Step-eq, SoundPass}
use nreduce.Compiler.Strictness.Marks.{clear_values}
use nreduce.Compiler.Strictness.Demand.{DemandsIn}
use nreduce.Compiler.Strictness.Letrecs.{find_value-has_name}
use nreduce.Compiler.Evaluation.Facts.{run-Prefix}
use nreduce.Compiler.Strictness.{check_strictness_r}
use nreduce.Compiler.Strictness.Applications.{check_application-Step}
use nreduce.Compiler.Strictness.Steps.{kept}
use nreduce.Compiler.Strictness.Rounds.{
  Inside, check_rounds-Inside, add_free-IsSorted, has_name-add_free,
}

find_value-none :
    (rec : Letrec) (x : Name)
    → has_name (bound_names rec) x ≡ false
    → find_value (clear_values rec) x ≡ none
find_value-none rec x h = elim (Option-cases (find_value (clear_values rec) x)) [
  | inl e ↦ e
  | inr (value, e) ↦ cc (find_value-has_name rec x value e)
]

module _ (delta : Delta) (prog : List Super) (scombs : List Scomb) where
  -- What the body of a letrec demands of the variables outside, the letrec demands.
  letrec-demands :
      (rec : Letrec) (body : Snode) (x : Name)
      → find_value rec x ≡ none
      → DemandsIn delta prog rec body x
      → DemandsAt delta prog scombs 0 (letrec rec body) x
  letrec-demands rec body x f d zero env st v n h = unfold run in cc
  letrec-demands rec body x f d (suc fuel) env st v n h =
      let (c, e, w) = d fuel env st v (unfold run in h) in
      let outer : lookup (recs rec env) x ≡ lookup env x = unfold lookup in cc in
      (c, sym outer ∙ e, Forced-more delta prog fuel (suc fuel) c (omega arith) w)

  lookup-Forced :
      (fuel : ℕ) (name : Name) (env : Env) (st : List Closure) (v : Value)
      → run delta prog (suc fuel) (symbol name) env st ≡ some v
      → (c : Closure) × (lookup env name ≡ some c) × Forced delta prog (suc fuel) c
  unfolding run
  lookup-Forced fuel name env st v h =
      let (c, e, h1) = >>=-eq-some (lookup env name) _ h in
      (
        c,
        e,
        Forced-more delta prog fuel (suc fuel) c (omega arith)
            (run-Prefix delta prog fuel c.code c.env [] st v h1),
      )

  symbol-demands : (name x : Name) → name ≡ x → DemandsAt delta prog scombs 0 (symbol name) x
  symbol-demands name x e zero env st v n h = unfold run in cc
  symbol-demands name x e (suc fuel) env st v n h =
      let (c, found, w) = lookup-Forced fuel name env st v h in
      (c, subst (λ (y : Name). lookup env y ≡ some c) e found, w)

  symbol-Step :
      (used : List Name) (name x : Name)
      → has_name (add_var used name) x ≡ true
      → (has_name used x ≡ true) ⊎ DemandsAt delta prog scombs 0 (clear (symbol name)) x
  unfolding clear
  symbol-Step used name x m = elim (Bool-cases (str_eq name x)) [
    | inl e ↦ inr (symbol-demands name x ((str_eq_iff name x).0 e))
    | inr e ↦ inl (ground (arith, has_name-add_var used name x))
  ]

  start :
      (rec : Letrec) (body : Snode)
      → Sound delta prog scombs (letrec rec body)
      → Inside delta prog scombs (clear_values rec) (clear body) rec body []
  unfolding Sound
  start rec body s = record {
    values = refl;
    tree = refl;
    distinct = s.0;
    sound_values = s.1;
    sound_body = s.2;
    marks = s.3;
    demands = λ x m. unfold has_name in cc;
    sorted = tt;
  }

  letrec-Step :
      (rec : Letrec) (body : Snode) (rec1 : Letrec) (body1 : Snode) (used bodyused : List Name)
      (changed1 : Bool)
      → Inside delta prog scombs (clear_values rec) (clear body) rec1 body1 bodyused
      → Step delta prog scombs 0
          (letrec rec body)
          used
          (letrec rec1 body1)
          (add_free (bound_names rec1) bodyused used)
  unfolding Sound clear
  letrec-Step rec body rec1 body1 used bodyused changed1 i = record {
    same = ap₂ letrec i.values i.tree;
    sound = (
      i.distinct,
      i.sound_values,
      i.sound_body,
      λ y m.
          subst (λ (r : Letrec). DemandsIn delta prog r (clear body1) y) (sym i.values)
            (subst (λ (e : Snode). DemandsIn delta prog (clear_values rec) e y) (sym i.tree)
              (i.marks y m)),
    );
    demands = λ x m. elim (has_name-add_free (bound_names rec1) bodyused used x m) [
      | inl old ↦ inl old
      | inr (inner, free) ↦ inr (
          letrec-demands (clear_values rec) (clear body) x
            (subst (λ (r : Letrec). find_value r x ≡ none) i.values (find_value-none rec1 x free))
            (i.demands x inner))
    ];
    sorted = add_free-IsSorted (bound_names rec1) bodyused used;
  }

  -- A pass over a tree, with what is known of the functions right and each mark in the tree right:
  -- the tree is the same but for its marks, each mark in it is right, a list of used variables that
  -- is sorted stays sorted, and each variable that the pass adds to it is evaluated whenever the
  -- tree has a value.
  pub check_strictness_r-SoundPass :
      Informed delta prog scombs
      → (fuel : ℕ) → SoundPass delta prog scombs (check_strictness_r scombs fuel)
  unfolding check_strictness_r
  check_strictness_r-SoundPass informed zero c used changed c' used' changed' s h = cc
  check_strictness_r-SoundPass informed (suc fuel) (application l r strict) used changed c' used'
        changed' s h =
      check_application-Step delta prog scombs (check_strictness_r scombs fuel)
        (check_strictness_r-SoundPass informed fuel) informed l r strict used changed c' used'
        changed' s h
  check_strictness_r-SoundPass informed (suc fuel) (letrec rec body) used changed c' used' changed'
        s h =
      let ((inside, bodyused, changed1), e, h1) =
        >>=-eq-some
          (check_rounds (check_strictness_r scombs fuel) (suc (length (bound_names rec))) rec body
            [] changed)
          _ h in
      Step-eq delta prog scombs (letrec inside.0 inside.1)
        (add_free (bound_names inside.0) bodyused used) changed1 h1
        (letrec-Step rec body inside.0 inside.1 used bodyused changed1 (
          check_rounds-Inside delta prog scombs (clear_values rec) (clear body)
            (check_strictness_r scombs fuel) (check_strictness_r-SoundPass informed fuel)
            (suc (length (bound_names rec))) rec body [] changed inside.0 inside.1 bodyused changed1
            (start rec body s) e))
  check_strictness_r-SoundPass informed (suc fuel) (lambda name body) used changed c' used' changed'
        s h =
      cc
  check_strictness_r-SoundPass informed (suc fuel) (builtin bif) used changed c' used' changed' s
        h =
      kept delta prog scombs 0 (builtin bif) used changed s h
  check_strictness_r-SoundPass informed (suc fuel) (symbol name) used changed c' used' changed' s
        h =
      Step-eq delta prog scombs (symbol name) (add_var used name) changed h (record {
        same = refl;
        sound = s;
        demands = λ x m. symbol-Step used name x m;
        sorted = add_var-IsSorted used name;
      })
  check_strictness_r-SoundPass informed (suc fuel) (scref sc) used changed c' used' changed' s h =
      kept delta prog scombs 0 (scref sc) used changed s h
  check_strictness_r-SoundPass informed (suc fuel) nil used changed c' used' changed' s h =
      kept delta prog scombs 0 nil used changed s h
  check_strictness_r-SoundPass informed (suc fuel) (number num) used changed c' used' changed' s h =
      kept delta prog scombs 0 (number num) used changed s h
  check_strictness_r-SoundPass informed (suc fuel) (string value) used changed c' used' changed' s
        h =
      kept delta prog scombs 0 (string value) used changed s h
