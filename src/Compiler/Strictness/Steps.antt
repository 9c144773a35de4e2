-- ===== src/Compiler/Strictness/Steps.antt =====
-- What a pass of the strictness analyser keeps: the record `Step`, and the calls
-- (the SNODE_APPLICATION case of `check_strictness_r`).
use nreduce.Base.{
  ℕ, zero, suc, ◌+◌, ◌≤◌, Bool, true, false, not, ◌||◌, ◌≡◌, refl, sym, ap, ap₂, subst, ◌∙◌, List,
  [], ◌∷◌, length, Option, some, >>=-eq-some, inl, inr, arith, ◌⊎◌,
}
use nreduce.Compiler.Syntax.{
  Name, Snode, application, lambda, builtin, symbol, letrec, scref, nil, number, string,
}
use nreduce.Compiler.Scombs.{Scomb}
use nreduce.Compiler.Evaluation.{Env, Closure, Value, Super, lookup, Delta, run}
use nreduce.Compiler.Strictness.{
  spine_fun, spine_nargs, fun_nargs, fun_strictin, Pass, check_arg, check_args,
}
use nreduce.Compiler.Strictness.Lists.{has_name, IsSorted}
use nreduce.Compiler.Strictness.Marks.{clear, fun_strictin-clear, spine_nargs-clear}
use nreduce.Compiler.Strictness.Demand.{
  Forced, Informed, Sound, StrictApp, StrictFun-StrictApp, Forced-more,
}

module _ (delta : Delta) (prog : List Super) (scombs : List Scomb) where
  -- Whenever the tree has a value, under arguments that make `k` with its own, the variable has had
  -- one.
  abbrev pub DemandsAt : ℕ → Snode → Name → Type 0
  DemandsAt k e x =
      (fuel : ℕ) (env : Env) (st : List Closure) (v : Value)
      → k ≤ spine_nargs e + length st
      → run delta prog fuel e env st ≡ some v
      → (c : Closure) × (lookup env x ≡ some c) × Forced delta prog fuel c

  pub record Step (k : ℕ) (c : Snode) (used : List Name) (c' : Snode) (used' : List Name)
      : Type 0 where
    pub same : clear c' ≡ clear c
    pub sound : Sound delta prog scombs c'
    pub demands :
        (x : Name) → has_name used' x ≡ true → (has_name used x ≡ true) ⊎ DemandsAt k (clear c) x
    pub sorted : IsSorted used → IsSorted used'

  -- The step to what a pass returns.
  pub Step-eq :
      {k : ℕ} {c : Snode} {used : List Name} (c1 : Snode) (used1 : List Name) (changed1 : Bool)
      {c2 : Snode} {used2 : List Name} {changed2 : Bool}
      → ◌≡◌ {A = Option (Snode × List Name × Bool)}
          (some (c1, used1, changed1))
          (some (c2, used2, changed2))
      → Step k c used c1 used1
      → Step k c used c2 used2
  Step-eq {k} {c} {used} c1 used1 changed1 {c2} {used2} {changed2} h s =
      let e : c1 ≡ c2 = cc in
      let e1 : used1 ≡ used2 = cc in
      subst (λ (d : Snode). Step k c used d used2) e
        (subst (λ (u : List Name). Step k c used c1 u) e1 s)

  abbrev pub SoundPass : Pass → Type 0
  SoundPass go =
      (c : Snode) (used : List Name) (changed : Bool) (c' : Snode) (used' : List Name)
      (changed' : Bool)
      → Sound delta prog scombs c
      → go c used changed ≡ some (c', used', changed')
      → Step 0 c used c' used'

  -- A marked argument is evaluated, so what it demands is demanded.
  StrictApp-demands :
      (k : ℕ) (l r : Snode) (x : Name)
      → fun_nargs scombs (spine_fun l) ≡ some k
      → StrictApp delta prog scombs l r
      → DemandsAt 0 r x
      → DemandsAt k (application l r false) x
  StrictApp-demands k l r x e s d fuel env st v n h =
      let (w, h1) = s k fuel env st v e (unfold spine_nargs in omega (arith, n)) h in
      d fuel env [] w (omega arith) h1

  pub StrictApp-same :
      (l r l' r' : Snode)
      → l' ≡ l
      → r' ≡ r
      → StrictApp delta prog scombs l r
      → StrictApp delta prog scombs l' r'
  StrictApp-same l r l' r' e f s =
      subst (λ (x : Snode). StrictApp delta prog scombs x r') (sym e)
        (subst (λ (y : Snode). StrictApp delta prog scombs l y) (sym f) s)

  pub DemandsAt-left :
      (k : ℕ) (l r : Snode) (x : Name) → DemandsAt k l x → DemandsAt k (application l r false) x
  DemandsAt-left k l r x d zero env st v n h = unfold run in cc
  DemandsAt-left k l r x d (suc fuel) env st v n h =
      let m : k ≤ spine_nargs l + suc (length st) = unfold spine_nargs in omega (arith, n) in
      let (c, e, w) = d fuel env (record { code = r; env = env } ∷ st) v m (unfold run in h) in
      (c, e, Forced-more delta prog fuel (suc fuel) c (omega arith) w)

  -- A pass that changes nothing.
  pub kept :
      (k : ℕ) (c : Snode) (used : List Name) (changed : Bool) {c1 : Snode} {used1 : List Name}
      {changed1 : Bool}
      → Sound delta prog scombs c
      → ◌≡◌ {A = Option (Snode × List Name × Bool)}
          (some (c, used, changed))
          (some (c1, used1, changed1))
      → Step k c used c1 used1
  kept k c used changed s h =
      Step-eq c used changed h
        (record { same = refl; sound = s; demands = λ x m. inl m; sorted = λ o. o })

  module _ (go : Pass) (passes : SoundPass go) (informed : Informed delta prog scombs) where
    check_arg-Step :
        (k : ℕ) (l r : Snode) (strict isstrict : Bool) (used : List Name) (changed : Bool)
        (app' : Snode) (used' : List Name) (changed' : Bool)
        → fun_nargs scombs (spine_fun (clear l)) ≡ some k
        → fun_strictin scombs (spine_fun l) (spine_nargs l) ≡ some isstrict
        → Sound delta prog scombs (application l r strict)
        → ((used1 : List Name) (changed1 : Bool) (l' : Snode) (used2 : List Name) (changed2 : Bool)
            → check_args scombs go (spine_fun l) (spine_nargs l) l used1 changed1
              ≡ some (l', used2, changed2)
            → Step k l used1 l' used2)
        → check_arg go
            (check_args scombs go (spine_fun l) (spine_nargs l) l)
            r
            strict
            isstrict
            used
            changed
          ≡ some (app', used', changed')
        → Step k (application l r strict) used app' used'
    unfolding check_arg Sound clear
    check_arg-Step k l r strict true used changed app' used' changed' n f s others h =
        let ((r', used1, changed1), e1, h1) = >>=-eq-some (go r used (changed || not strict)) _ h in
        let ((l', used2, changed2), e2, h2) =
          >>=-eq-some (check_args scombs go (spine_fun l) (spine_nargs l) l used1 changed1) _ h1 in
        let a = passes r used (changed || not strict) r' used1 changed1 s.2 e1 in
        let b = others used1 changed1 l' used2 changed2 e2 in
        let known : fun_strictin scombs (spine_fun (clear l)) (spine_nargs (clear l)) ≡ some true =
          subst (λ (i : ℕ). fun_strictin scombs (spine_fun (clear l)) i ≡ some true)
            (sym (spine_nargs-clear l)) (fun_strictin-clear scombs l (spine_nargs l) ∙ f) in
        let strictly =
          StrictFun-StrictApp delta prog scombs (clear l) (clear r)
            (informed (spine_fun (clear l)) (spine_nargs (clear l)) known) in
        Step-eq (application l' r' true) used2 changed2 h2 (record {
          same = ap₂ (λ (x y : Snode). application x y false) b.same a.same;
          sound = (
            λ _. StrictApp-same (clear l) (clear r) (clear l') (clear r') b.same a.same strictly,
            b.sound,
            a.sound,
          );
          demands = λ x m. elim (b.demands x m) [
            | inr d ↦ inr (DemandsAt-left k (clear l) (clear r) x d)
            | inl old ↦ elim (a.demands x old) [
              | inl older ↦ inl older
              | inr d ↦ inr (StrictApp-demands k (clear l) (clear r) x n strictly d)
            ]
          ];
          sorted = λ o. b.sorted (a.sorted o);
        })
    check_arg-Step k l r strict false used changed app' used' changed' n f s others h =
        let ((l', used1, changed1), e1, h1) =
          >>=-eq-some (check_args scombs go (spine_fun l) (spine_nargs l) l used changed) _ h in
        let b = others used changed l' used1 changed1 e1 in
        Step-eq (application l' r strict) used1 changed1 h1 (record {
          same = ap (λ (x : Snode). application x (clear r) false) b.same;
          sound = (
            λ e. StrictApp-same (clear l) (clear r) (clear l') (clear r) b.same refl (s.0 e),
            b.sound,
            s.2,
          );
          demands = λ x m. elim (b.demands x m) [
            | inl old ↦ inl old
            | inr d ↦ inr (DemandsAt-left k (clear l) (clear r) x d)
          ];
          sorted = b.sorted;
        })

    pub check_args-Step :
        (k : ℕ) (app : Snode) (used : List Name) (changed : Bool) (app' : Snode) (used' : List Name)
        (changed' : Bool)
        → fun_nargs scombs (spine_fun (clear app)) ≡ some k
        → Sound delta prog scombs app
        → check_args scombs go (spine_fun app) (spine_nargs app) app used changed
          ≡ some (app', used', changed')
        → Step k app used app' used'
    unfolding check_args spine_fun spine_nargs
    check_args-Step k (application l r strict) used changed app' used' changed' n s h =
        let n1 : fun_nargs scombs (spine_fun (clear l)) ≡ some k = unfold clear in n in
        let (isstrict, e, h1) =
          >>=-eq-some (fun_strictin scombs (spine_fun l) (spine_nargs l)) _ h in
        check_arg-Step k l r strict isstrict used changed app' used' changed' n1 e s
          (λ used1 changed1 l' used2 changed2 e1.
            check_args-Step k l used1 changed1 l' used2 changed2 n1 (unfold Sound in s.1) e1)
          h1
    check_args-Step k (lambda name body) used changed app' used' changed' n s h =
        kept k (lambda name body) used changed s h
    check_args-Step k (builtin bif) used changed app' used' changed' n s h =
        kept k (builtin bif) used changed s h
    check_args-Step k (symbol name) used changed app' used' changed' n s h =
        kept k (symbol name) used changed s h
    check_args-Step k (letrec rec body) used changed app' used' changed' n s h =
        kept k (letrec rec body) used changed s h
    check_args-Step k (scref sc) used changed app' used' changed' n s h =
        kept k (scref sc) used changed s h
    check_args-Step k nil used changed app' used' changed' n s h = kept k nil used changed s h
    check_args-Step k (number num) used changed app' used' changed' n s h =
        kept k (number num) used changed s h
    check_args-Step k (string value) used changed app' used' changed' n s h =
        kept k (string value) used changed s h
