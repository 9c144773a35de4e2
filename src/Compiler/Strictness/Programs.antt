-- ===== src/Compiler/Strictness/Programs.antt =====
-- The strictness analyser over a program: what its marks say stays true.
use nreduce.Base.{
  ℕ, zero, suc, ◌≤◌, Bool, true, false, ◌||◌, ◌≡◌, refl, sym, ap, subst, ◌∙◌, List, [], length,
  drop, get_elem?, Option, some, ◌>>=◌, >>=-eq-some, Bool-cases, inl, inr, arith, if-eq, fst-some,
  ◌==◌, ==_iff,
}
use nreduce.Compiler.Syntax.{
  Name, Snode, application, lambda, builtin, symbol, letrec, scref, nil, number, string, Letrec,
  done, binding,
}
use nreduce.Compiler.Scombs.{Scomb}
use nreduce.Compiler.Evaluation.{Env, Closure, Value, Super, bind_args, Delta, run}
use nreduce.Compiler.Strictness.{spine_fun, flag, fun_nargs, fun_strictin, check_strictness_r}
use nreduce.Compiler.Strictness.Lists.{has_name}
use nreduce.Compiler.Strictness.Marks.{clear, program, IsDistinct}
use nreduce.Compiler.Strictness.Demand.{
  Forced, Forced-more, Informed, Sound, SoundValues, StrictFun, builtin-StrictFun,
}
use nreduce.Compiler.Strictness.Steps.{DemandsAt, Step}
use nreduce.Compiler.Strictness.Soundness.{check_strictness_r-SoundPass}
use nreduce.Compiler.Strictness.Analysis.{
  size, new_strictin, memcmp, set_elem, set_strictness, check_strictness, check_all,
  analysis_rounds,
}
use nreduce.Compiler.Strictness.Tables.{
  update, lookup-bind_args, new_strictin-at, set_elem-same, set_elem-hit, set_elem-other,
  program-at, fun_strictin-scref, program-set_elem, fun_nargs-set_elem,
}

module _ (delta : Delta) (prog : List Super) where
  module _ (scombs scombs' : List Scomb)
      (same : (f : Snode) → fun_nargs scombs' f ≡ fun_nargs scombs f) where
    mutual
      unfolding Sound SoundValues

      moved : (c : Snode) → Sound delta prog scombs c → Sound delta prog scombs' c
      moved (application l r strict) s = (
        λ e k fuel env st v n. s.0 e k fuel env st v (sym (same (spine_fun (clear l))) ∙ n),
        moved l s.1,
        moved r s.2,
      )
      moved (lambda name body) s = moved body s
      moved (builtin bif) s = tt
      moved (symbol name) s = tt
      moved (letrec rec body) s = (s.0, moved_values rec s.1, moved body s.2, s.3)
      moved (scref sc) s = tt
      moved nil s = tt
      moved (number num) s = tt
      moved (string value) s = tt

      moved_values :
          (rec : Letrec) → SoundValues delta prog scombs rec → SoundValues delta prog scombs' rec
      moved_values done s = tt
      moved_values (binding name value strict rest) s = (moved value s.0, moved_values rest s.1)

  -- What the analyser has noted of a supercombinator is so: no parameter twice, and each mark in its
  -- body and each flag of its arguments keeps its promise.
  pub record SoundScomb (scombs : List Scomb) (sc : Scomb) : Type 0 where
    pub distinct : IsDistinct sc.argnames
    pub body : Sound delta prog scombs sc.body

  pub record SoundProgram (scombs : List Scomb) : Type 0 where
    pub same : program scombs ≡ prog
    pub informed : Informed delta prog scombs
    pub each : (i : ℕ) (sc : Scomb) → get_elem? scombs i ≡ some sc → SoundScomb scombs sc

  run-scref :
      (fuel scno : ℕ) (s : Super) (env : Env) (st : List Closure) (v : Value)
      → get_elem? prog scno ≡ some s
      → length s.params ≤ length st
      → run delta prog (suc fuel) (scref scno) env st ≡ some v
      → run delta prog fuel s.code (bind_args s.params st) (drop (length s.params) st) ≡ some v
  unfolding run
  run-scref fuel scno s env st v e l h = ground arith

  fun_nargs-scref :
      (scombs : List Scomb) (scno k : ℕ) (sc : Scomb)
      → get_elem? scombs scno ≡ some sc
      → fun_nargs scombs (scref scno) ≡ some k
      → length sc.argnames ≡ k
  unfolding fun_nargs
  fun_nargs-scref scombs scno k sc e n =
      let (s, e1, n1) = >>=-eq-some (get_elem? scombs scno) _ n in
      let same : s ≡ sc = cc in cc (ap (λ (t : Scomb). length t.argnames) same)

  -- What the body demands of a parameter, the supercombinator demands of the argument.
  param-StrictFun :
      (scombs : List Scomb) (scno i : ℕ) (sc : Scomb) (x : Name)
      → program scombs ≡ prog
      → get_elem? scombs scno ≡ some sc
      → IsDistinct sc.argnames
      → get_elem? sc.argnames i ≡ some x
      → DemandsAt delta prog scombs 0 (clear sc.body) x
      → StrictFun delta prog scombs (scref scno) i
  param-StrictFun scombs scno i sc x p e d a m k zero env st v c n l h f = unfold run in cc
  param-StrictFun scombs scno i sc x p e d a m k (suc fuel) env st v c n l h f =
      let entered : run delta prog fuel (clear sc.body) (bind_args sc.argnames st)
            (drop (length sc.argnames) st)
          ≡ some v =
        run-scref fuel scno (record { params = sc.argnames; code = clear sc.body }) env st v
          (subst
            (λ (p : List Super).
              get_elem? p scno ≡ some (record { params = sc.argnames; code = clear sc.body }))
            p (program-at scombs scno sc e))
          (omega (arith, fun_nargs-scref scombs scno k sc e n)) h in
      let (c1, found, w) =
        m fuel (bind_args sc.argnames st) (drop (length sc.argnames) st) v (omega arith) entered in
      let same : c1 ≡ c = cc (lookup-bind_args sc.argnames st i x c d a f) in
      Forced-more delta prog fuel (suc fuel) c (omega arith)
        (subst (λ (b : Closure). Forced delta prog fuel b) same w)

  -- What is noted of a supercombinator after its body was checked.
  updated-Informed :
      (scombs : List Scomb) (scno : ℕ) (sc : Scomb) (body : Snode) (used : List Name)
      (old strictin : List Bool)
      → SoundProgram scombs
      → get_elem? scombs scno ≡ some sc
      → sc.strictin ≡ some old
      → new_strictin sc.argnames old used ≡ some strictin
      → ((x : Name) → has_name used x ≡ true → DemandsAt delta prog scombs 0 (clear sc.body) x)
      → (f : Snode) (i : ℕ)
      → fun_strictin (set_elem scombs scno (update sc body strictin)) f i ≡ some true
      → StrictFun delta prog scombs f i
  unfolding fun_strictin
  updated-Informed scombs scno sc body used old strictin s e o n d (builtin bif) i h =
      builtin-StrictFun delta prog scombs bif i h
  updated-Informed scombs scno sc body used old strictin s e o n d (scref j) i h =
      elim (Bool-cases (scno == j)) [
        | inr other ↦ s.informed (scref j) i (
            subst (λ (o : Option Scomb). (o >>= λ t. flag t i) ≡ some true)
              (set_elem-other scombs scno j (update sc body strictin) other) h)
        | inl same ↦
            let here : scno ≡ j = (==_iff scno j).0 same in
            let h1 =
              subst
                (λ (t : ℕ).
                  fun_strictin (set_elem scombs scno (update sc body strictin)) (scref t) i
                  ≡ some true)
                (sym here) h in
            let (l, t) =
              (fun_strictin-scref (set_elem scombs scno (update sc body strictin)) scno i
                  (update sc body strictin) strictin
                  (set_elem-same scombs scno (update sc body strictin) sc e) refl).0
                h1 in
            subst (λ (t : ℕ). StrictFun delta prog scombs (scref t) i) here
              (elim (new_strictin-at sc.argnames old used strictin i n t) [
                | inl before ↦
                    s.informed (scref scno) i
                      ((fun_strictin-scref scombs scno i sc old e o).1 (l, before))
                | inr (x, at, m) ↦
                    param-StrictFun scombs scno i sc x s.same e (s.each scno sc e).distinct at
                      (d x m)
              ])
      ]
  updated-Informed scombs scno sc body used old strictin s e o n d (application l r strict) i h = cc
  updated-Informed scombs scno sc body used old strictin s e o n d (lambda name b) i h = cc
  updated-Informed scombs scno sc body used old strictin s e o n d (symbol name) i h = cc
  updated-Informed scombs scno sc body used old strictin s e o n d (letrec rec b) i h = cc
  updated-Informed scombs scno sc body used old strictin s e o n d nil i h = cc
  updated-Informed scombs scno sc body used old strictin s e o n d (number num) i h = cc
  updated-Informed scombs scno sc body used old strictin s e o n d (string value) i h = cc

  updated :
      (scombs : List Scomb) (scno : ℕ) (sc : Scomb) (body : Snode) (used : List Name)
      (old strictin : List Bool)
      → SoundProgram scombs
      → get_elem? scombs scno ≡ some sc
      → sc.strictin ≡ some old
      → new_strictin sc.argnames old used ≡ some strictin
      → Step delta prog scombs 0 sc.body [] body used
      → SoundProgram (set_elem scombs scno (update sc body strictin))
  updated scombs scno sc body used old strictin s e o n step =
      let after = set_elem scombs scno (update sc body strictin) in
      let nargs = fun_nargs-set_elem scombs scno sc body strictin e in
      let demands : (x : Name)
          → has_name used x ≡ true
          → DemandsAt delta prog scombs 0 (clear sc.body) x =
        λ x m. elim (step.demands x m) [ inl nothing ↦ unfold has_name in cc | inr d ↦ d ] in
      record {
        same = program-set_elem scombs scno sc body strictin e step.same ∙ s.same;
        informed = λ f i h k fuel env st v c m.
            updated-Informed scombs scno sc body used old strictin s e o n demands f i h k fuel env
              st v c (sym (nargs f) ∙ m);
        each = λ j t f. elim (Bool-cases (scno == j)) [
          | inr other ↦
              let was =
                s.each j t
                  (sym (set_elem-other scombs scno j (update sc body strictin) other) ∙ f) in
              record { distinct = was.distinct; body = moved scombs after nargs t.body was.body }
          | inl same ↦
              let here : update sc body strictin ≡ t =
                set_elem-hit scombs scno j (update sc body strictin) sc t e same f in
              subst (SoundScomb after) here (record {
                distinct = (s.each scno sc e).distinct;
                body = moved scombs after nargs body step.sound;
              })
        ];
      }

  pub check_strictness-SoundProgram :
      (scombs : List Scomb) (scno : ℕ) (changed : Bool) (scombs' : List Scomb) (changed' : Bool)
      → SoundProgram scombs
      → check_strictness scombs scno changed ≡ some (scombs', changed')
      → SoundProgram scombs'
  unfolding check_strictness set_strictness
  check_strictness-SoundProgram scombs scno changed scombs' changed' s h =
      let (sc, e, h1) = >>=-eq-some (get_elem? scombs scno) _ h in
      let ((body, used, changed1), e1, h2) =
        >>=-eq-some (check_strictness_r scombs (size sc.body) sc.body [] changed) _ h1 in
      let (old, e2, h3) = >>=-eq-some sc.strictin _ h2 in
      let (strictin, e3, h4) = >>=-eq-some (new_strictin sc.argnames old used) _ h3 in
      let step =
        check_strictness_r-SoundPass delta prog scombs s.informed (size sc.body) sc.body [] changed
          body used changed1 (s.each scno sc e).body e1 in
      let result : set_elem scombs scno (update sc body strictin) ≡ scombs' =
        fst-some (set_elem scombs scno (update sc body strictin)) scombs'
          (memcmp old strictin || changed1) changed' h4 in
      subst SoundProgram result (updated scombs scno sc body used old strictin s e e2 e3 step)

  check_all-SoundProgram :
      (scombs : List Scomb) (scno n : ℕ) (changed : Bool) (scombs' : List Scomb) (changed' : Bool)
      → SoundProgram scombs
      → check_all scombs scno n changed ≡ some (scombs', changed')
      → SoundProgram scombs'
  unfolding check_all
  check_all-SoundProgram scombs scno zero changed scombs' changed' s h =
      subst SoundProgram (fst-some scombs scombs' changed changed' h) s
  check_all-SoundProgram scombs scno (suc n) changed scombs' changed' s h =
      let ((scombs1, changed1), e, h1) = >>=-eq-some (check_strictness scombs scno changed) _ h in
      check_all-SoundProgram scombs1 (suc scno) n changed1 scombs' changed'
        (check_strictness-SoundProgram scombs scno changed scombs1 changed1 s e) h1

  pub analysis_rounds-SoundProgram :
      (rounds : ℕ) (scombs scombs' : List Scomb)
      → SoundProgram scombs
      → analysis_rounds rounds scombs ≡ some scombs'
      → SoundProgram scombs'
  unfolding analysis_rounds
  analysis_rounds-SoundProgram zero scombs scombs' s h = cc
  analysis_rounds-SoundProgram (suc rounds) scombs scombs' s h =
      let ((scombs1, changed), e, h1) =
        >>=-eq-some (check_all scombs 0 (length scombs) false) _ h in
      let next = check_all-SoundProgram scombs 0 (length scombs) false scombs1 changed s e in
      elim (if-eq changed _ _ h1) [
        | inl (again, h2) ↦ analysis_rounds-SoundProgram rounds scombs1 scombs' next h2
        | inr (stop, h2) ↦ subst SoundProgram (cc) next
      ]
