-- ===== src/Compiler/Strictness/Demand.antt =====
-- What is certainly evaluated: the promise behind the marks of the strictness analyser.
use nreduce.Base.{
  ℕ, zero, suc, ◌+◌, ◌≤◌, ◌<◌, true, false, ◌≡◌, refl, subst, List, [], ◌∷◌, length, drop, take,
  get_elem?, Option, some, >>=-eq-some, assert, ltb, inl, inr, arith, ◌⊎◌,
}
use nreduce.Compiler.Syntax.{
  Name, Snode, application, lambda, builtin, symbol, letrec, scref, nil, number, string, Letrec,
  done, binding, bound_names,
}
use nreduce.Compiler.Scombs.{Scomb}
use nreduce.Compiler.Builtins.{Builtin, builtin_info}
use nreduce.Compiler.Evaluation.{
  Env, recs, Closure, Value, Answer, enter, Super, lookup, Delta, run, call, call_builtin,
  force_args, force, resume, b_if, b_if_index, Eval,
}
use nreduce.Compiler.Evaluation.Facts.{run-more, run-Prefix}
use nreduce.Compiler.Strictness.{spine_fun, spine_nargs, fun_nargs, fun_strictin}
use nreduce.Compiler.Strictness.Marks.{
  clear, clear_values, is_marked, IsDistinct, spine_closures, length-spine_closures,
  spine_closures-at, run-spine_fun,
}

module _ (delta : Delta) (prog : List Super) where
  -- The expression has a value, found with the same fuel.
  abbrev pub Forced : ℕ → Closure → Type 0
  Forced fuel c = (w : Value) × (run delta prog fuel c.code c.env [] ≡ some w)

  -- Whenever the tree has a value, the variable has had one.
  abbrev pub Demands : Snode → Name → Type 0
  Demands e x =
      (fuel : ℕ) (env : Env) (st : List Closure) (v : Value)
      → run delta prog fuel e env st ≡ some v
      → (c : Closure) × (lookup env x ≡ some c) × Forced fuel c

  -- The same of the body of a letrec, in the scope of its bindings.
  abbrev pub DemandsIn : Letrec → Snode → Name → Type 0
  DemandsIn rec body x =
      (fuel : ℕ) (env : Env) (st : List Closure) (v : Value)
      → run delta prog fuel body (recs rec env) st ≡ some v
      → (c : Closure) × (lookup (recs rec env) x ≡ some c) × Forced fuel c

  module _ (scombs : List Scomb) where
    -- A function that has its arguments evaluates the one with the number `i`.
    abbrev pub StrictFun : Snode → ℕ → Type 0
    StrictFun f i =
        (k : ℕ) (fuel : ℕ) (env : Env) (st : List Closure) (v : Value) (c : Closure)
        → fun_nargs scombs f ≡ some k
        → k ≤ length st
        → run delta prog fuel f env st ≡ some v
        → get_elem? st i ≡ some c
        → Forced fuel c

    -- Whenever an application is evaluated, with arguments enough for its function, its argument is.
    abbrev pub StrictApp : Snode → Snode → Type 0
    StrictApp l r =
        (k : ℕ) (fuel : ℕ) (env : Env) (st : List Closure) (v : Value)
        → fun_nargs scombs (spine_fun l) ≡ some k
        → k ≤ suc (spine_nargs l + length st)
        → run delta prog fuel (application l r false) env st ≡ some v
        → Forced fuel (record { code = r; env = env })

    -- What the analyser knows of the functions is so.
    abbrev pub Informed : Type 0
    Informed = (f : Snode) (i : ℕ) → fun_strictin scombs f i ≡ some true → StrictFun f i

    -- Each mark in the tree keeps its promise; a letrec binds no name twice.
    unfoldable mutual
      pub Sound : Snode → Type 0
      Sound (application l r strict) =
          (strict ≡ true → StrictApp (clear l) (clear r)) × Sound l × Sound r
      Sound (letrec rec body) =
          IsDistinct (bound_names rec)
          × SoundValues rec
          × Sound body
          × ((y : Name) → is_marked rec y ≡ true → DemandsIn (clear_values rec) (clear body) y)
      Sound (lambda name body) = Sound body
      Sound (builtin bif) = Unit
      Sound (symbol name) = Unit
      Sound (scref sc) = Unit
      Sound nil = Unit
      Sound (number num) = Unit
      Sound (string value) = Unit

      pub SoundValues : Letrec → Type 0
      SoundValues done = Unit
      SoundValues (binding name value strict rest) = Sound value × SoundValues rest

    pub StrictFun-StrictApp :
        (l r : Snode) → StrictFun (spine_fun l) (spine_nargs l) → StrictApp l r
    StrictFun-StrictApp l r s k fuel env st v e n h =
        let c : Closure = record { code = r; env = env } in
        let h1 : run delta prog fuel (spine_fun l) env (spine_closures l env (c ∷ st)) ≡ some v =
          unfold spine_fun spine_closures in
          run-spine_fun delta prog fuel (application l r false) env st v h in
        let at : get_elem? (spine_closures l env (c ∷ st)) (spine_nargs l) ≡ some c =
          subst (λ (n : ℕ). get_elem? (spine_closures l env (c ∷ st)) n ≡ some c) (omega arith)
            (spine_closures-at l env (c ∷ st) 0) in
        s k fuel env (spine_closures l env (c ∷ st)) v c e
          (omega (arith, length-spine_closures l env (c ∷ st))) h1 at

  pub Forced-more : (less fuel : ℕ) (c : Closure) → less ≤ fuel → Forced less c → Forced fuel c
  Forced-more less fuel c l (w, h) = (w, run-more delta prog less fuel c.code c.env [] w l h)

  -- A function is always needed.
  pub Demands-left : (l r : Snode) (x : Name) → Demands l x → Demands (application l r false) x
  Demands-left l r x d zero env st v h = unfold run in cc
  Demands-left l r x d (suc fuel) env st v h =
      let (c, e, w) = d fuel env (record { code = r; env = env } ∷ st) v (unfold run in h) in
      (c, e, Forced-more fuel (suc fuel) c (omega arith) w)

  force_args-at :
      (f : Closure → Option Value) (n i : ℕ) (st : List Closure) (vs : List Value) (c : Closure)
      → force_args f n st ≡ some vs
      → i < n
      → get_elem? st i ≡ some c
      → (w : Value) × (f c ≡ some w)
  unfolding force_args
  force_args-at f zero i st vs c h l e = absurd (omega arith)
  force_args-at f (suc n) i [] vs c h l e = cc
  force_args-at f (suc n) zero (d ∷ st) vs c h l e =
      let (v, e1, h1) = >>=-eq-some (f d) _ h in (v, subst (λ (a : Closure). f a ≡ some v) (cc) e1)
  force_args-at f (suc n) (suc i) (d ∷ st) vs c h l e =
      let (v, e1, h1) = >>=-eq-some (f d) _ h in
      let (ws, e2, h2) = >>=-eq-some (force_args f n st) _ h1 in
      force_args-at f n i st ws c e2 (omega arith) e

  run-builtin :
      (fuel bif : ℕ) (b : Builtin) (env : Env) (st : List Closure) (v : Value)
      → get_elem? builtin_info bif ≡ some b
      → b.nargs ≤ length st
      → run delta prog (suc fuel) (builtin bif) env st ≡ some v
      → call delta (run delta prog fuel) bif b st ≡ some v
  unfolding run
  run-builtin fuel bif b env st v e n h = ground arith

  -- A built-in function is strict in its first `nstrict` arguments.
  pub builtin-StrictFun :
      (scombs : List Scomb) (bif i : ℕ)
      → fun_strictin scombs (builtin bif) i ≡ some true
      → StrictFun scombs (builtin bif) i
  unfolding fun_strictin fun_nargs call
  builtin-StrictFun scombs bif i s k zero env st v c e n h a = unfold run in cc
  builtin-StrictFun scombs bif i s k (suc fuel) env st v c e n h a =
      let (b, e1, s1) = >>=-eq-some (get_elem? builtin_info bif) _ s in
      let (u, e2, s2) = >>=-eq-some (assert (ltb i b.nargs)) _ s1 in
      let (b1, e3, k1) = >>=-eq-some (get_elem? builtin_info bif) _ e in
      let same : b1 ≡ b = cc in
      let nargs : b.nargs ≡ k = cc in
      let h1 = run-builtin fuel bif b env st v e1 (omega arith) h in
      let (vs, e4, h2) = >>=-eq-some (force_args (force (run delta prog fuel)) b.nstrict st) _ h1 in
      let (w, e5) =
        force_args-at (force (run delta prog fuel)) b.nstrict i st vs c e4 (ground arith) a in
      Forced-more fuel (suc fuel) c (omega arith) (w, e5)

  if_row :
      (b : Builtin) × (get_elem? builtin_info b_if_index ≡ some b) × (b.nargs ≡ 3) × (b.nstrict ≡ 1)
  unfolding builtin_info
  if_row = (_, refl, refl, refl)

  force_args-one :
      (g : Closure → Option Value) (c : Closure) (st : List Closure) (vs : List Value)
      → force_args g 1 (c ∷ st) ≡ some vs
      → (u : Value) × (vs ≡ u ∷ [])
  unfolding force_args
  force_args-one g c st vs h = let (u, e, h1) = >>=-eq-some (g c) _ h in (u, cc)

  call_builtin-if :
      (c t f : Closure) (u : Value) (result : Answer)
      → call_builtin delta b_if_index (u ∷ []) (c ∷ t ∷ f ∷ []) ≡ some result
      → (result ≡ enter t) ⊎ (result ≡ enter f)
  unfolding call_builtin b_if
  call_builtin-if c t f u result h = ground arith

  -- A call of `if` evaluates one of its branches.
  call-if :
      (eval : Eval) (b : Builtin) (first t f : Closure) (st : List Closure) (v : Value)
      → b.nargs ≡ 3
      → b.nstrict ≡ 1
      → call delta eval b_if_index b (first ∷ t ∷ f ∷ st) ≡ some v
      → (eval t.code t.env st ≡ some v) ⊎ (eval f.code f.env st ≡ some v)
  unfolding call
  call-if eval b first t f st v n k h =
      let (vs, e, h1) = >>=-eq-some (force_args (force eval) b.nstrict (first ∷ t ∷ f ∷ st)) _ h in
      let (result, e1, h2) =
        >>=-eq-some (call_builtin delta b_if_index vs (take b.nargs (first ∷ t ∷ f ∷ st))) _ h1 in
      let e2 : force_args (force eval) 1 (first ∷ t ∷ f ∷ st) ≡ some vs =
        subst (λ (i : ℕ). force_args (force eval) i (first ∷ t ∷ f ∷ st) ≡ some vs) k e in
      let e3 : call_builtin delta b_if_index vs (first ∷ t ∷ f ∷ []) ≡ some result =
        subst
          (λ (i : ℕ). call_builtin delta b_if_index vs (take i (first ∷ t ∷ f ∷ st)) ≡ some result)
          n e1 in
      let h3 : resume eval result st ≡ some v =
        subst (λ (i : ℕ). resume eval result (drop i (first ∷ t ∷ f ∷ st)) ≡ some v) n h2 in
      let (u, e4) = force_args-one (force eval) first (t ∷ f ∷ st) vs e2 in
      let e5 : call_builtin delta b_if_index (u ∷ []) (first ∷ t ∷ f ∷ []) ≡ some result =
        subst
          (λ (us : List Value). call_builtin delta b_if_index us (first ∷ t ∷ f ∷ []) ≡ some result)
          e4 e3 in
      elim (call_builtin-if first t f u result e5) [
        | inl e6 ↦ inl (subst (λ (a : Answer). resume eval a st ≡ some v) e6 h3)
        | inr e6 ↦ inr (subst (λ (a : Answer). resume eval a st ≡ some v) e6 h3)
      ]

  -- A variable that both branches demand is demanded.
  pub if-Forced :
      (fuel : ℕ) (env : Env) (st : List Closure) (v : Value) (t f : Closure)
      → get_elem? st 1 ≡ some t
      → get_elem? st 2 ≡ some f
      → run delta prog fuel (builtin b_if_index) env st ≡ some v
      → Forced fuel t ⊎ Forced fuel f
  if-Forced zero env st v t f e1 e2 h = unfold run in cc
  if-Forced (suc fuel) env [] v t f e1 e2 h = cc
  if-Forced (suc fuel) env (a ∷ []) v t f e1 e2 h = cc
  if-Forced (suc fuel) env (a ∷ b ∷ []) v t f e1 e2 h = cc
  if-Forced (suc fuel) env (a ∷ b ∷ c ∷ st) v t f e1 e2 h =
      let row = if_row in
      let h1 =
        run-builtin fuel b_if_index row.0 env (a ∷ b ∷ c ∷ st) v row.1 (rw (row.2) (omega arith))
          h in
      elim (call-if (run delta prog fuel) row.0 a b c st v row.2 row.3 h1) [
        | inl g ↦
            let w = run-Prefix delta prog fuel b.code b.env [] st v g in
            inl (
              subst (λ (d : Closure). Forced (suc fuel) d) (cc)
                (Forced-more fuel (suc fuel) b (omega arith) w))
        | inr g ↦
            let w = run-Prefix delta prog fuel c.code c.env [] st v g in
            inr (
              subst (λ (d : Closure). Forced (suc fuel) d) (cc)
                (Forced-more fuel (suc fuel) c (omega arith) w))
      ]
