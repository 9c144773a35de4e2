-- ===== src/Compiler/Evaluation/Facts.antt =====
-- Evaluation with more fuel, and with less arguments on the stack.
use nreduce.Base.{
  ℕ, zero, suc, ◌≤◌, ◌≡◌, refl, sym, ap, subst, ◌∙◌, List, [], ◌∷◌, ◌++◌, length, take, drop,
  get_elem?, Option, some, >>=-eq-some, ltb, lt_or_eq, Bool-cases, inl, inr, arith, length-append,
}
use nreduce.Compiler.Syntax.{
  Name, Snode, application, lambda, builtin, symbol, letrec, scref, nil, number, string,
}
use nreduce.Compiler.Builtins.{Builtin, builtin_info, builtin_info-strict}
use nreduce.Compiler.Evaluation.{
  Env, bind, recs, Closure, Value, constant, partial, Answer, answer, enter, Super, lookup,
  bind_args, Delta, call_builtin, force_args, Eval, force, unapplied, resume, call, run,
}

-- One evaluation has a value wherever the other has one, and it is the same.
abbrev pub Extends : Eval → Eval → Type 0
Extends eval more =
    (c : Snode) (env : Env) (st : List Closure) (v : Value)
    → eval c env st ≡ some v
    → more c env st ≡ some v

force_args-Extends :
    (eval more : Eval) (n : ℕ) (st : List Closure) (vs : List Value)
    → Extends eval more
    → force_args (force eval) n st ≡ some vs
    → force_args (force more) n st ≡ some vs
unfolding force_args
force_args-Extends eval more zero st vs x h = h
force_args-Extends eval more (suc n) [] vs x h = h
force_args-Extends eval more (suc n) (c ∷ st) vs x h =
    let (v, e, h1) = >>=-eq-some (force eval c) _ h in
    let (ws, e1, h2) = >>=-eq-some (force_args (force eval) n st) _ h1 in
    rw (x c.code c.env [] v e, force_args-Extends eval more n st ws x e1) h2

resume-Extends :
    (eval more : Eval) (result : Answer) (st : List Closure) (v : Value)
    → Extends eval more
    → resume eval result st ≡ some v
    → resume more result st ≡ some v
resume-Extends eval more (answer w) st v x h = h
resume-Extends eval more (enter c) st v x h = x c.code c.env st v h

call-Extends :
    (delta : Delta) (eval more : Eval) (bif : ℕ) (b : Builtin) (st : List Closure) (v : Value)
    → Extends eval more
    → call delta eval bif b st ≡ some v
    → call delta more bif b st ≡ some v
unfolding call
call-Extends delta eval more bif b st v x h =
    let (vs, e, h1) = >>=-eq-some (force_args (force eval) b.nstrict st) _ h in
    let (result, e1, h2) = >>=-eq-some (call_builtin delta bif vs (take b.nargs st)) _ h1 in
    rw (force_args-Extends eval more b.nstrict st vs x e, e1)
      (resume-Extends eval more result (drop b.nargs st) v x h2)

module _ (delta : Delta) (prog : List Super) where
  -- More fuel does not change a value.
  pub run-Extends : (fuel : ℕ) → Extends (run delta prog fuel) (run delta prog (suc fuel))
  unfolding run
  run-Extends zero c env st v h = cc
  run-Extends (suc fuel) (application l r strict) env st v h =
      run-Extends fuel l env (record { code = r; env = env } ∷ st) v h
  run-Extends (suc fuel) (lambda name body) env st v h = h
  run-Extends (suc fuel) (symbol name) env st v h =
      let (c, e, h1) = >>=-eq-some (lookup env name) _ h in
      rw e (run-Extends fuel c.code c.env st v h1)
  run-Extends (suc fuel) (letrec rec body) env st v h = run-Extends fuel body (recs rec env) st v h
  run-Extends (suc fuel) (scref sc) env st v h =
      let (s, e, h1) = >>=-eq-some (get_elem? prog sc) _ h in
      ground (arith, run-Extends fuel s.code (bind_args s.params st) (drop (length s.params) st) v)
  run-Extends (suc fuel) (builtin bif) env st v h =
      let (b, e, h1) = >>=-eq-some (get_elem? builtin_info bif) _ h in
      ground (
        arith,
        call-Extends delta (run delta prog fuel) (run delta prog (suc fuel)) bif b st v
            (run-Extends fuel),
      )
  run-Extends (suc fuel) nil env st v h = h
  run-Extends (suc fuel) (number num) env st v h = h
  run-Extends (suc fuel) (string value) env st v h = h

module _ (delta : Delta) (prog : List Super) where
  -- Evaluation keeps its value with any amount of fuel more.
  pub run-more :
      (less : ℕ) (fuel : ℕ) (c : Snode) (env : Env) (st : List Closure) (v : Value)
      → less ≤ fuel
      → run delta prog less c env st ≡ some v
      → run delta prog fuel c env st ≡ some v
  run-more less zero c env st v l h =
      subst (λ (n : ℕ). run delta prog n c env st ≡ some v) (omega arith) h
  run-more less (suc fuel) c env st v l h = elim (lt_or_eq less (suc fuel) (omega arith)) [
    | inl lt ↦
        run-Extends delta prog fuel c env st v (run-more less fuel c env st v (omega arith) h)
    | inr eq ↦ subst (λ (n : ℕ). run delta prog n c env st ≡ some v) eq h
  ]

module _ {A : Type 0} where
  take-append : (n : ℕ) (xs ys : List A) → n ≤ length xs → take n (xs ++ ys) ≡ take n xs
  take-append zero xs ys h = refl
  take-append (suc n) [] ys h = absurd (omega arith)
  take-append (suc n) (x ∷ xs) ys h = ap (λ (l : List A). x ∷ l) (take-append n xs ys (omega arith))

  drop-append : (n : ℕ) (xs ys : List A) → n ≤ length xs → drop n (xs ++ ys) ≡ drop n xs ++ ys
  drop-append zero xs ys h = refl
  drop-append (suc n) [] ys h = absurd (omega arith)
  drop-append (suc n) (x ∷ xs) ys h = drop-append n xs ys (omega arith)

force_args-append :
    (f : Closure → Option Value) (n : ℕ) (st extra : List Closure)
    → n ≤ length st
    → force_args f n (st ++ extra) ≡ force_args f n st
unfolding force_args
force_args-append f zero st extra h = refl
force_args-append f (suc n) [] extra h = absurd (omega arith)
force_args-append f (suc n) (c ∷ st) extra h =
    rw (force_args-append f n st extra (omega arith)) refl

bind_args-append :
    (xs : List Name) (st extra : List Closure)
    → length xs ≤ length st
    → bind_args xs (st ++ extra) ≡ bind_args xs st
unfolding bind_args
bind_args-append [] st extra h = refl
bind_args-append (x ∷ xs) [] extra h = absurd (omega arith)
bind_args-append (x ∷ xs) (c ∷ st) extra h =
    ap (bind x c.code c.env) (bind_args-append xs st extra (omega arith))

-- A value under more arguments on the stack is one under less.
abbrev pub Prefix : Eval → Type 0
Prefix eval =
    (c : Snode) (env : Env) (st extra : List Closure) (v : Value)
    → eval c env (st ++ extra) ≡ some v
    → (w : Value) × (eval c env st ≡ some w)

unapplied-Prefix :
    (u : Value) (st extra : List Closure) (v : Value)
    → unapplied u (st ++ extra) ≡ some v
    → (w : Value) × (unapplied u st ≡ some w)
unapplied-Prefix u [] extra v h = (u, refl)
unapplied-Prefix u (c ∷ st) extra v h = cc

resume-Prefix :
    (eval : Eval) (result : Answer) (st extra : List Closure) (v : Value)
    → Prefix eval
    → resume eval result (st ++ extra) ≡ some v
    → (w : Value) × (resume eval result st ≡ some w)
resume-Prefix eval (answer u) st extra v p h = unapplied-Prefix u st extra v h
resume-Prefix eval (enter c) st extra v p h = p c.code c.env st extra v h

call-Prefix :
    (delta : Delta) (eval : Eval) (bif : ℕ) (b : Builtin) (st extra : List Closure) (v : Value)
    → Prefix eval
    → b.nstrict ≤ b.nargs
    → b.nargs ≤ length st
    → call delta eval bif b (st ++ extra) ≡ some v
    → (w : Value) × (call delta eval bif b st ≡ some w)
unfolding call
call-Prefix delta eval bif b st extra v p s l h =
    let (vs, e, h1) = >>=-eq-some (force_args (force eval) b.nstrict (st ++ extra)) _ h in
    let (result, e1, h2) =
      >>=-eq-some (call_builtin delta bif vs (take b.nargs (st ++ extra))) _ h1 in
    let h3 : resume eval result (drop b.nargs st ++ extra) ≡ some v =
      subst (λ (l : List Closure). resume eval result l ≡ some v) (drop-append b.nargs st extra l)
        h2 in
    let (w, h4) = resume-Prefix eval result (drop b.nargs st) extra v p h3 in
    let e2 : force_args (force eval) b.nstrict st ≡ some vs =
      sym (force_args-append (force eval) b.nstrict st extra (omega arith)) ∙ e in
    let e3 : call_builtin delta bif vs (take b.nargs st) ≡ some result =
      ap (call_builtin delta bif vs) (sym (take-append b.nargs st extra l)) ∙ e1 in
    (w, rw (e2, e3) h4)

module _ (delta : Delta) (prog : List Super) where
  pub run-Prefix : (fuel : ℕ) → Prefix (run delta prog fuel)
  unfolding run
  run-Prefix zero c env st extra v h = cc
  run-Prefix (suc fuel) (application l r strict) env st extra v h =
      run-Prefix fuel l env (record { code = r; env = env } ∷ st) extra v h
  run-Prefix (suc fuel) (lambda name body) env st extra v h = cc
  run-Prefix (suc fuel) (symbol name) env st extra v h =
      let (c, e, h1) = >>=-eq-some (lookup env name) _ h in
      rw e (run-Prefix fuel c.code c.env st extra v h1)
  run-Prefix (suc fuel) (letrec rec body) env st extra v h =
      run-Prefix fuel body (recs rec env) st extra v h
  run-Prefix (suc fuel) (scref sc) env st extra v h =
      let (s, e, h1) = >>=-eq-some (get_elem? prog sc) _ h in
      elim (Bool-cases (ltb (length st) (length s.params))) [
        | inl less ↦ (partial (scref sc) st, ground arith)
        | inr more ↦
            let enough : length s.params ≤ length st = ground arith in
            let run_on : run delta prog fuel s.code (bind_args s.params (st ++ extra))
                  (drop (length s.params) (st ++ extra))
                ≡ some v =
              ground (arith, length-append st extra) in
            let (w, h2) =
              run-Prefix fuel s.code (bind_args s.params st) (drop (length s.params) st) extra v (
                rw
                  (
                    sym (bind_args-append s.params st extra enough),
                    sym (drop-append (length s.params) st extra enough),
                  )
                  run_on) in
            (w, ground arith)
      ]
  run-Prefix (suc fuel) (builtin bif) env st extra v h =
      let (b, e, h1) = >>=-eq-some (get_elem? builtin_info bif) _ h in
      elim (Bool-cases (ltb (length st) b.nargs)) [
        | inl less ↦ (partial (builtin bif) st, ground arith)
        | inr more ↦
            let enough : b.nargs ≤ length st = ground arith in
            let run_on : call delta (run delta prog fuel) bif b (st ++ extra) ≡ some v =
              ground (arith, length-append st extra) in
            let (w, h2) =
              call-Prefix delta (run delta prog fuel) bif b st extra v (run-Prefix fuel)
                (builtin_info-strict bif b e) enough run_on in
            (w, ground arith)
      ]
  run-Prefix (suc fuel) nil env st extra v h = unapplied-Prefix (constant nil) st extra v h
  run-Prefix (suc fuel) (number num) env st extra v h =
      unapplied-Prefix (constant (number num)) st extra v h
  run-Prefix (suc fuel) (string value) env st extra v h =
      unapplied-Prefix (constant (string value)) st extra v h
