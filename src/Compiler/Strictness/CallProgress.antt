-- ===== src/Compiler/Strictness/CallProgress.antt =====
-- The strictness analyser at an application returns, and tells in `changed` whether it set a mark.
use nreduce.Base.{
  ℕ, suc, ◌≤◌, Bool, true, false, ◌≡◌, refl, sym, ap, subst, ◌∙◌, List, length, some, ◌>>=◌, inl,
  inr, arith, ◌==◌, Bool-cases, ==_iff,
}
use nreduce.Compiler.Syntax.{
  Name, Snode, application, lambda, builtin, symbol, letrec, scref, nil, number, string,
}
use nreduce.Compiler.Scombs.{Scomb}
use nreduce.Compiler.Evaluation.{b_if_index, b_seq_index}
use nreduce.Compiler.Strictness.{
  spine_fun, spine_nargs, fun_nargs, Pass, Result, check_if, check_seq, check_special, check_call,
  check_left, check_known, check_application,
}
use nreduce.Compiler.Strictness.Marks.{clear, spine_nargs-clear}
use nreduce.Compiler.Strictness.Analysis.{size}
use nreduce.Compiler.Strictness.Wellformed.{
  IsReady, AreFlagged, IsCall, is_saturated-IsReady, spine_nargs-view, fun_nargs-if, fun_nargs-seq,
}
-- Either nothing happened, or `changed` is set and there are less marks left to set.
use nreduce.Compiler.Strictness.Progress.{
  Marked, MarkedPass, unchanged, check_args-Marked, check_if-Marked, check_seq-Marked,
  check_left-Marked,
}

module _ (scombs : List Scomb) (fuel : ℕ) (go : Pass)
    (passes : MarkedPass (length scombs) fuel go) where
  check_special-Marked :
      (fun c : Snode) (used : List Name) (changed : Bool)
      → fun_nargs scombs fun ≡ some (spine_nargs c)
      → IsReady (length scombs) (clear c)
      → size (clear c) ≤ suc fuel
      → Marked (check_special go fun c used changed) c changed
  unfolding check_special
  check_special-Marked (builtin bif) c used changed n i z = elim (Bool-cases (bif == b_if_index)) [
    | inl isif ↦
        let three : spine_nargs c ≡ 3 = fun_nargs-if scombs (spine_nargs c) (
          subst (λ (j : ℕ). fun_nargs scombs (builtin j) ≡ some (spine_nargs c))
            ((==_iff bif b_if_index).0 isif) n) in
        let (l1, f, s2, e1, n1) = spine_nargs-view c 2 three in
        let (l, t, s1, e2, n2) = spine_nargs-view l1 1 n1 in
        let shape : c ≡ application (application l t s1) f s2 =
          e1 ∙ ap (λ (y : Snode). application y f s2) e2 in
        rw isif (
          subst (λ (y : Snode). Marked (check_if go y used changed) y changed) (sym shape)
            (check_if-Marked scombs fuel go passes l t f s1 s2 used changed
              (subst (λ (y : Snode). IsReady (length scombs) (clear y)) shape i)
              (subst (λ (y : Snode). size (clear y) ≤ suc fuel) shape z)))
    | inr other ↦ elim (Bool-cases (bif == b_seq_index)) [
      | inl isseq ↦
          let two : spine_nargs c ≡ 2 = fun_nargs-seq scombs (spine_nargs c) (
            subst (λ (j : ℕ). fun_nargs scombs (builtin j) ≡ some (spine_nargs c))
              ((==_iff bif b_seq_index).0 isseq) n) in
          let (l, r, strict, shape, n1) = spine_nargs-view c 1 two in
          rw (other, isseq)
            (subst (λ (y : Snode). Marked (check_seq go y used changed) y changed) (sym shape)
              (check_seq-Marked scombs fuel go passes l r strict used changed
                (subst (λ (y : Snode). IsReady (length scombs) (clear y)) shape i)
                (subst (λ (y : Snode). size (clear y) ≤ suc fuel) shape z)))
      | inr rest ↦ rw (other, rest) (unchanged c used changed)
    ]
  ]
  check_special-Marked (application l r strict) c used changed n i z = unchanged c used changed
  check_special-Marked (lambda name body) c used changed n i z = unchanged c used changed
  check_special-Marked (symbol name) c used changed n i z = unchanged c used changed
  check_special-Marked (letrec rec body) c used changed n i z = unchanged c used changed
  check_special-Marked (scref sc) c used changed n i z = unchanged c used changed
  check_special-Marked nil c used changed n i z = unchanged c used changed
  check_special-Marked (number num) c used changed n i z = unchanged c used changed
  check_special-Marked (string value) c used changed n i z = unchanged c used changed

  -- One pass, and another on the tree it returns.
  Marked-trans :
      {r : Result Snode} {c : Snode} {changed : Bool} (a : Marked r c changed)
      → (f : Snode → List Name → Bool → Result Snode)
      → Marked (f a.tree a.used a.changed') a.tree a.changed'
      → Marked (r >>= λ (c1, used1, changed1). f c1 used1 changed1) c changed
  Marked-trans a f b = record {
    tree = b.tree;
    used = b.used;
    changed' = b.changed';
    result = rw a.result b.result;
    same = b.same ∙ a.same;
    progress = ground (arith, a.progress, b.progress);
  }

  check_left-Marked_call :
      (c : Snode) (n : ℕ) (used : List Name) (changed : Bool)
      → spine_nargs c ≡ suc n
      → IsReady (length scombs) (clear c)
      → size (clear c) ≤ suc fuel
      → Marked (check_left go c used changed) c changed
  check_left-Marked_call c n used changed e i z =
      let (l, r, strict, shape, n1) = spine_nargs-view c n e in
      subst (λ (y : Snode). Marked (check_left go y used changed) y changed) (sym shape)
        (check_left-Marked scombs fuel go passes l r strict used changed
          (subst (λ (y : Snode). IsReady (length scombs) (clear y)) shape i)
          (subst (λ (y : Snode). size (clear y) ≤ suc fuel) shape z))

  check_known-Marked :
      (saturated : Bool) (c : Snode) (n : ℕ) (used : List Name) (changed : Bool)
      → spine_nargs c ≡ suc n
      → IsReady (length scombs) (clear c)
      → size (clear c) ≤ suc fuel
      → (saturated ≡ true
          → (fun_nargs scombs (spine_fun c) ≡ some (spine_nargs c)) × IsCall scombs c)
      → Marked (check_known scombs go saturated c used changed) c changed
  unfolding check_known check_call
  check_known-Marked false c n used changed e i z known =
      check_left-Marked_call c n used changed e i z
  check_known-Marked true c n used changed e i z known =
      let (nargs, call) = known refl in
      let a = check_args-Marked scombs fuel go passes (spine_fun c) c used changed i z call in
      let n1 : spine_nargs a.tree ≡ spine_nargs c =
        sym (spine_nargs-clear a.tree) ∙ ap spine_nargs a.same ∙ spine_nargs-clear c in
      let i1 = subst (IsReady (length scombs)) (sym a.same) i in
      let z1 = subst (λ (y : Snode). size y ≤ suc fuel) (sym a.same) z in
      let b = Marked-trans a (check_special go (spine_fun c)) (
        check_special-Marked (spine_fun c) a.tree a.used a.changed' (nargs ∙ ap some (sym n1)) i1
          z1) in
      let n2 : spine_nargs b.tree ≡ suc n =
        sym (spine_nargs-clear b.tree) ∙ ap spine_nargs b.same ∙ spine_nargs-clear c ∙ e in
      Marked-trans b (check_left go) (
        check_left-Marked_call b.tree n b.used b.changed' n2
          (subst (IsReady (length scombs)) (sym b.same) i)
          (subst (λ (y : Snode). size y ≤ suc fuel) (sym b.same) z))

  pub check_application-Marked :
      (l r : Snode) (strict : Bool) (used : List Name) (changed : Bool)
      → AreFlagged scombs
      → IsReady (length scombs) (clear (application l r strict))
      → size (clear (application l r strict)) ≤ suc fuel
      → Marked
          (check_application scombs go (application l r strict) used changed)
          (application l r strict)
          changed
  unfolding check_application
  check_application-Marked l r strict used changed f i z =
      let c = application l r strict in
      let e : spine_nargs c ≡ suc (spine_nargs l) = unfold spine_nargs in refl in
      elim (is_saturated-IsReady scombs c f i) [
        | inl isnt ↦
            rw isnt (check_known-Marked false c (spine_nargs l) used changed e i z (λ no. cc))
        | inr (is, nargs, call) ↦
            rw is
              (check_known-Marked true c (spine_nargs l) used changed e i z (λ h. (nargs, call)))
      ]
