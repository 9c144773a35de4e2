-- ===== src/Compiler/Strictness/Applications.antt =====
-- The strictness analyser at an application: the call, and then its function.
use nreduce.Base.{
  ℕ, suc, Bool, true, false, ◌≡◌, refl, sym, ap, subst, ◌∙◌, List, some, >>=-eq-some, inl, inr,
  if-eq, ==_iff,
}
use nreduce.Compiler.Syntax.{Name, Snode, application, builtin}
use nreduce.Compiler.Scombs.{Scomb}
use nreduce.Compiler.Evaluation.{Super, Delta}
use nreduce.Compiler.Strictness.{
  spine_fun, spine_nargs, fun_nargs, Pass, check_args, check_call, check_left, check_known,
  check_application, is_saturated, is_function,
}
use nreduce.Compiler.Strictness.Marks.{spine_nargs-clear}
use nreduce.Compiler.Strictness.Demand.{Informed, Sound}
use nreduce.Compiler.Strictness.Steps.{Step, SoundPass, check_args-Step}
use nreduce.Compiler.Strictness.Marks.{fun_nargs-clear}
use nreduce.Compiler.Strictness.Wellformed.{spine_nargs-view}
use nreduce.Compiler.Strictness.Calls.{
  check_special-Step, Step-trans, Step-saturated, check_left-Step, spine_fun-clear,
}

module _ (delta : Delta) (prog : List Super) (scombs : List Scomb) where
  module _ (go : Pass) (passes : SoundPass delta prog scombs go)
      (informed : Informed delta prog scombs) where
    check_call-Step :
        (k : ℕ) (c : Snode) (used : List Name) (changed : Bool) (c' : Snode) (used' : List Name)
        (changed' : Bool)
        → fun_nargs scombs (spine_fun c) ≡ some k
        → spine_nargs c ≡ k
        → Sound delta prog scombs c
        → check_call scombs go c used changed ≡ some (c', used', changed')
        → Step delta prog scombs k c used c' used'
    unfolding check_call
    check_call-Step k c used changed c' used' changed' e n s h =
        let ((c1, used1, changed1), e1, h1) =
          >>=-eq-some (check_args scombs go (spine_fun c) (spine_nargs c) c used changed) _ h in
        let a =
          check_args-Step delta prog scombs go passes informed k c used changed c1 used1 changed1
            (fun_nargs-clear scombs c ∙ e) s e1 in
        let n1 : spine_nargs c1 ≡ k =
          sym (spine_nargs-clear c1) ∙ ap spine_nargs a.same ∙ spine_nargs-clear c ∙ n in
        let bottom = λ (bif : ℕ) (f : spine_fun c ≡ builtin bif).
          ap spine_fun a.same ∙ spine_fun-clear c bif f in
        Step-trans delta prog scombs k c c1 c' used used1 used' a (
          check_special-Step delta prog scombs go passes informed k (spine_fun c) c1 used1 changed1
            c' used' changed' bottom e n1 a.sound h1)

    check_left-Step_call :
        (c : Snode) (n : ℕ) (used : List Name) (changed : Bool) (c' : Snode) (used' : List Name)
        (changed' : Bool)
        → spine_nargs c ≡ suc n
        → Sound delta prog scombs c
        → check_left go c used changed ≡ some (c', used', changed')
        → Step delta prog scombs 0 c used c' used'
    check_left-Step_call c n used changed c' used' changed' e s h =
        let (l, r, strict, shape, n1) = spine_nargs-view c n e in
        subst (λ (y : Snode). Step delta prog scombs 0 y used c' used') (sym shape)
          (check_left-Step delta prog scombs go passes informed l r strict used changed c' used'
            changed' (subst (λ (y : Snode). Sound delta prog scombs y) shape s)
            (subst (λ (y : Snode). check_left go y used changed ≡ some (c', used', changed')) shape
              h))

    is_saturated-nargs :
        (c : Snode)
        → is_saturated scombs c ≡ some true
        → fun_nargs scombs (spine_fun c) ≡ some (spine_nargs c)
    unfolding is_saturated
    is_saturated-nargs c h = elim (if-eq (is_function (spine_fun c)) _ _ h) [
      | inl (is, h1) ↦
          let (k, e, h2) = >>=-eq-some (fun_nargs scombs (spine_fun c)) _ h1 in
          e ∙ ap some (sym ((==_iff (spine_nargs c) k).0 (cc)))
      | inr (isnt, h1) ↦ cc
    ]

    pub check_known-Step :
        (saturated : Bool) (c : Snode) (n : ℕ) (used : List Name) (changed : Bool) (c' : Snode)
        (used' : List Name) (changed' : Bool)
        → is_saturated scombs c ≡ some saturated
        → spine_nargs c ≡ suc n
        → Sound delta prog scombs c
        → check_known scombs go saturated c used changed ≡ some (c', used', changed')
        → Step delta prog scombs 0 c used c' used'
    unfolding check_known
    check_known-Step true c n used changed c' used' changed' e m s h =
        let ((c1, used1, changed1), e1, h1) =
          >>=-eq-some (check_call scombs go c used changed) _ h in
        let a = Step-saturated delta prog scombs (spine_nargs c) c c1 used used1 refl (
          check_call-Step (spine_nargs c) c used changed c1 used1 changed1 (is_saturated-nargs c e)
            refl s e1) in
        let n1 : spine_nargs c1 ≡ suc n =
          sym (spine_nargs-clear c1) ∙ ap spine_nargs a.same ∙ spine_nargs-clear c ∙ m in
        Step-trans delta prog scombs 0 c c1 c' used used1 used' a
          (check_left-Step_call c1 n used1 changed1 c' used' changed' n1 a.sound h1)
    check_known-Step false c n used changed c' used' changed' e m s h =
        check_left-Step_call c n used changed c' used' changed' m s h

    pub check_application-Step :
        (l r : Snode) (strict : Bool) (used : List Name) (changed : Bool) (c' : Snode)
        (used' : List Name) (changed' : Bool)
        → Sound delta prog scombs (application l r strict)
        → check_application scombs go (application l r strict) used changed
          ≡ some (c', used', changed')
        → Step delta prog scombs 0 (application l r strict) used c' used'
    unfolding check_application
    check_application-Step l r strict used changed c' used' changed' s h =
        let (saturated, e, h1) = >>=-eq-some (is_saturated scombs (application l r strict)) _ h in
        check_known-Step saturated (application l r strict) (spine_nargs l) used changed c' used'
          changed' e (unfold spine_nargs in refl) s h1
