-- ===== src/Compiler/Strictness/Calls.antt =====
-- The calls of the strictness analyser: the branches of `if`, the second argument of `seq`, and the
-- whole SNODE_APPLICATION case.
use nreduce.Base.{
  ℕ, Bool, true, false, ◌&&◌, ◌||◌, ◌≡◌, refl, sym, ap, ap₂, subst, ◌∙◌, List, [], ◌∷◌, get_elem?,
  some, >>=-eq-some, inl, inr, arith, ◌⊎◌, if-eq, ◌==◌, ==_iff,
}
use nreduce.Compiler.Syntax.{
  Name, Snode, application, lambda, builtin, symbol, letrec, scref, nil, number, string,
}
use nreduce.Compiler.Scombs.{Scomb}
use nreduce.Compiler.Evaluation.{Closure, Super, Delta, run, b_if_index, b_seq_index}
use nreduce.Compiler.Strictness.{
  spine_fun, spine_nargs, fun_nargs, Pass, check_if, check_seq, check_special, check_left,
}
use nreduce.Compiler.Strictness.Lists.{has_name, add_union, add_union_lem, add_union-IsSorted}
use nreduce.Compiler.Strictness.Marks.{clear, spine_nargs-clear}
use nreduce.Compiler.Strictness.Demand.{Informed, Sound}
use nreduce.Compiler.Strictness.Steps.{
  DemandsAt, Step, Step-eq, SoundPass, kept, StrictApp-same, DemandsAt-left,
}
use nreduce.Compiler.Strictness.Marks.{spine_closures, spine_closures-at, run-spine_fun}
use nreduce.Compiler.Strictness.Demand.{if-Forced}
use nreduce.Compiler.Strictness.Wellformed.{spine_nargs-view, fun_nargs-if, fun_nargs-seq}

pub spine_fun-clear :
    (c : Snode) (bif : ℕ) → spine_fun c ≡ builtin bif → spine_fun (clear c) ≡ builtin bif
unfolding spine_fun clear
spine_fun-clear (application l r strict) bif h = spine_fun-clear l bif h
spine_fun-clear (lambda name body) bif h = cc
spine_fun-clear (builtin b) bif h = h
spine_fun-clear (symbol name) bif h = cc
spine_fun-clear (letrec rec body) bif h = cc
spine_fun-clear (scref sc) bif h = cc
spine_fun-clear nil bif h = cc
spine_fun-clear (number num) bif h = cc
spine_fun-clear (string value) bif h = cc

module _ (delta : Delta) (prog : List Super) (scombs : List Scomb) where
  or-and : (a b c : Bool) → (a || (b && c)) ≡ true → (a ≡ true) ⊎ ((b ≡ true) × (c ≡ true))
  or-and true b c h = inl refl
  or-and false true true h = inr (refl, refl)
  or-and false true false h = cc
  or-and false false c h = cc

  not_empty : (x : Name) {D : Type 0} → (has_name [] x ≡ true) ⊎ D → D
  unfolding has_name
  not_empty x (inl h) = cc
  not_empty x (inr d) = d

  -- Two steps, one after the other.
  pub Step-trans :
      (k : ℕ) (c c1 c2 : Snode) (used used1 used2 : List Name)
      → Step delta prog scombs k c used c1 used1
      → Step delta prog scombs k c1 used1 c2 used2
      → Step delta prog scombs k c used c2 used2
  Step-trans k c c1 c2 used used1 used2 a b = record {
    same = b.same ∙ a.same;
    sound = b.sound;
    demands = λ x m. elim (b.demands x m) [
      | inr d ↦ inr (subst (λ (e : Snode). DemandsAt delta prog scombs k e x) a.same d)
      | inl old ↦ a.demands x old
    ];
    sorted = λ o. b.sorted (a.sorted o);
  }

  -- A call with all its arguments needs no more of them.
  pub Step-saturated :
      (k : ℕ) (c c1 : Snode) (used used1 : List Name)
      → k ≡ spine_nargs c
      → Step delta prog scombs k c used c1 used1
      → Step delta prog scombs 0 c used c1 used1
  Step-saturated k c c1 used used1 e s = record {
    same = s.same;
    sound = s.sound;
    demands = λ x m. elim (s.demands x m) [
      | inl old ↦ inl old
      | inr d ↦ inr (λ fuel env st v n h. d fuel env st v (omega (arith, spine_nargs-clear c)) h)
    ];
    sorted = s.sorted;
  }

  -- What both branches of `if` demand is demanded.
  if-demands :
      (l t f : Snode) (x : Name)
      → spine_nargs l ≡ 1
      → spine_fun l ≡ builtin b_if_index
      → DemandsAt delta prog scombs 0 t x
      → DemandsAt delta prog scombs 0 f x
      → DemandsAt delta prog scombs 3 (application (application l t false) f false) x
  if-demands l t f x n b dt df fuel env st v m h =
      let ct : Closure = record { code = t; env = env } in
      let cf : Closure = record { code = f; env = env } in
      let h1 : run delta prog fuel (spine_fun l) env (spine_closures l env (ct ∷ cf ∷ st))
          ≡ some v =
        unfold spine_fun spine_closures in
        run-spine_fun delta prog fuel (application (application l t false) f false) env st v h in
      let h2 : run delta prog fuel (builtin b_if_index) env (spine_closures l env (ct ∷ cf ∷ st))
          ≡ some v =
        subst
          (λ (g : Snode). run delta prog fuel g env (spine_closures l env (ct ∷ cf ∷ st)) ≡ some v)
          b h1 in
      let at1 : get_elem? (spine_closures l env (ct ∷ cf ∷ st)) 1 ≡ some ct =
        subst (λ (i : ℕ). get_elem? (spine_closures l env (ct ∷ cf ∷ st)) i ≡ some ct)
          (omega (arith, n)) (spine_closures-at l env (ct ∷ cf ∷ st) 0) in
      let at2 : get_elem? (spine_closures l env (ct ∷ cf ∷ st)) 2 ≡ some cf =
        subst (λ (i : ℕ). get_elem? (spine_closures l env (ct ∷ cf ∷ st)) i ≡ some cf)
          (omega (arith, n)) (spine_closures-at l env (ct ∷ cf ∷ st) 1) in
      elim (if-Forced delta prog fuel env (spine_closures l env (ct ∷ cf ∷ st)) v ct cf at1 at2
        h2) [
          | inl (w, g) ↦ dt fuel env [] w (omega arith) g
          | inr (w, g) ↦ df fuel env [] w (omega arith) g
        ]

  module _ (go : Pass) (passes : SoundPass delta prog scombs go)
      (informed : Informed delta prog scombs) where
    check_if-Step :
        (l t f : Snode) (s1 s2 : Bool) (used : List Name) (changed : Bool) (c' : Snode)
        (used' : List Name) (changed' : Bool)
        → spine_nargs l ≡ 1
        → spine_fun (clear l) ≡ builtin b_if_index
        → Sound delta prog scombs (application (application l t s1) f s2)
        → check_if go (application (application l t s1) f s2) used changed
          ≡ some (c', used', changed')
        → Step delta prog scombs 3 (application (application l t s1) f s2) used c' used'
    unfolding check_if Sound clear
    check_if-Step l t f s1 s2 used changed c' used' changed' n b s h =
        let ((t', tused, changed1), e1, h1) = >>=-eq-some (go t [] changed) _ h in
        let ((f', fused, changed2), e2, h2) = >>=-eq-some (go f [] changed1) _ h1 in
        let p = passes t [] changed t' tused changed1 s.1.2 e1 in
        let q = passes f [] changed1 f' fused changed2 s.2 e2 in
        let nargs : spine_nargs (clear l) ≡ 1 = omega (arith, spine_nargs-clear l, n) in
        let inner : clear (application l t' s1) ≡ clear (application l t s1) =
          ap (λ (y : Snode). application (clear l) y false) p.same in
        Step-eq delta prog scombs (application (application l t' s1) f' s2)
          (add_union used tused fused) changed2 h2
          (record {
            same = ap₂ (λ (x y : Snode). application x y false) inner q.same;
            sound = (
              λ e.
                  StrictApp-same delta prog scombs (clear (application l t s1)) (clear f)
                    (clear (application l t' s1)) (clear f') inner q.same (s.0 e),
              (
                λ e.
                    StrictApp-same delta prog scombs (clear l) (clear t) (clear l) (clear t') refl
                      p.same (s.1.0 e),
                s.1.1,
                p.sound,
              ),
              q.sound,
            );
            demands = λ x m.
                elim (or-and (has_name used x) (has_name tused x) (has_name fused x)
                  (sym (add_union_lem used tused fused x (p.sorted tt) (q.sorted tt)) ∙ m)) [
                    | inl old ↦ inl old
                    | inr (mt, mf) ↦ inr (
                        if-demands (clear l) (clear t) (clear f) x nargs b
                          (not_empty x (p.demands x mt)) (not_empty x (q.demands x mf)))
                  ];
            sorted = add_union-IsSorted used tused fused;
          })

    check_seq-Step :
        (k : ℕ) (l r : Snode) (strict : Bool) (used : List Name) (changed : Bool) (c' : Snode)
        (used' : List Name) (changed' : Bool)
        → Sound delta prog scombs (application l r strict)
        → check_seq go (application l r strict) used changed ≡ some (c', used', changed')
        → Step delta prog scombs k (application l r strict) used c' used'
    unfolding check_seq Sound clear
    check_seq-Step k l r strict used changed c' used' changed' s h =
        let ((r', rused, changed1), e1, h1) = >>=-eq-some (go r [] changed) _ h in
        let p = passes r [] changed r' rused changed1 s.2 e1 in
        Step-eq delta prog scombs (application l r' strict) used changed1 h1 (record {
          same = ap (λ (y : Snode). application (clear l) y false) p.same;
          sound = (
            λ e.
                StrictApp-same delta prog scombs (clear l) (clear r) (clear l) (clear r') refl
                  p.same (s.0 e),
            s.1,
            p.sound,
          );
          demands = λ x m. inl m;
          sorted = λ o. o;
        })

    -- The function of an application is needed whatever its arguments are.
    pub check_left-Step :
        (l r : Snode) (strict : Bool) (used : List Name) (changed : Bool) (c' : Snode)
        (used' : List Name) (changed' : Bool)
        → Sound delta prog scombs (application l r strict)
        → check_left go (application l r strict) used changed ≡ some (c', used', changed')
        → Step delta prog scombs 0 (application l r strict) used c' used'
    unfolding check_left Sound clear
    check_left-Step l r strict used changed c' used' changed' s h =
        let ((l', used1, changed1), e1, h1) = >>=-eq-some (go l used changed) _ h in
        let p = passes l used changed l' used1 changed1 s.1 e1 in
        Step-eq delta prog scombs (application l' r strict) used1 changed1 h1 (record {
          same = ap (λ (y : Snode). application y (clear r) false) p.same;
          sound = (
            λ e.
                StrictApp-same delta prog scombs (clear l) (clear r) (clear l') (clear r) p.same
                  refl (s.0 e),
            p.sound,
            s.2,
          );
          demands = λ x m. elim (p.demands x m) [
            | inl old ↦ inl old
            | inr d ↦ inr (DemandsAt-left delta prog scombs 0 (clear l) (clear r) x d)
          ];
          sorted = p.sorted;
        })

    pub check_special-Step :
        (k : ℕ) (fun c : Snode) (used : List Name) (changed : Bool) (c' : Snode) (used' : List Name)
        (changed' : Bool)
        → ((bif : ℕ) → fun ≡ builtin bif → spine_fun (clear c) ≡ builtin bif)
        → fun_nargs scombs fun ≡ some k
        → spine_nargs c ≡ k
        → Sound delta prog scombs c
        → check_special go fun c used changed ≡ some (c', used', changed')
        → Step delta prog scombs k c used c' used'
    unfolding check_special
    check_special-Step k (builtin bif) c used changed c' used' changed' b e n s h =
        elim (if-eq (bif == b_if_index) _ _ h) [
          | inl (isif, h1) ↦
              let same : bif ≡ b_if_index = (==_iff bif b_if_index).0 isif in
              let three : k ≡ 3 =
                fun_nargs-if scombs k
                  (subst (λ (i : ℕ). fun_nargs scombs (builtin i) ≡ some k) same e) in
              let (l1, f, s2, e1, n1) = spine_nargs-view c 2 (n ∙ three) in
              let (l, t, s1, e2, n2) = spine_nargs-view l1 1 n1 in
              let shape : c ≡ application (application l t s1) f s2 =
                e1 ∙ ap (λ (y : Snode). application y f s2) e2 in
              let bottom : spine_fun (clear l) ≡ builtin b_if_index =
                unfold spine_fun clear in
                subst (λ (y : Snode). spine_fun (clear y) ≡ builtin b_if_index) shape
                  (b bif refl ∙ ap builtin same) in
              subst (λ (j : ℕ). Step delta prog scombs j c used c' used') (sym three)
                (subst (λ (y : Snode). Step delta prog scombs 3 y used c' used') (sym shape)
                  (check_if-Step l t f s1 s2 used changed c' used' changed' n2 bottom
                    (subst (λ (y : Snode). Sound delta prog scombs y) shape s)
                    (subst (λ (y : Snode). check_if go y used changed ≡ some (c', used', changed'))
                      shape h1)))
          | inr (other, h1) ↦ elim (if-eq (bif == b_seq_index) _ _ h1) [
            | inl (isseq, h2) ↦
                let same : bif ≡ b_seq_index = (==_iff bif b_seq_index).0 isseq in
                let two : k ≡ 2 =
                  fun_nargs-seq scombs k
                    (subst (λ (i : ℕ). fun_nargs scombs (builtin i) ≡ some k) same e) in
                let (l, r, strict, shape, n1) = spine_nargs-view c 1 (n ∙ two) in
                subst (λ (y : Snode). Step delta prog scombs k y used c' used') (sym shape)
                  (check_seq-Step k l r strict used changed c' used' changed'
                    (subst (λ (y : Snode). Sound delta prog scombs y) shape s)
                    (subst (λ (y : Snode). check_seq go y used changed ≡ some (c', used', changed'))
                      shape h2))
            | inr (rest, h2) ↦ kept delta prog scombs k c used changed s h2
          ]
        ]
    check_special-Step k (application l r strict) c used changed c' used' changed' b e n s h =
        kept delta prog scombs k c used changed s h
    check_special-Step k (lambda name body) c used changed c' used' changed' b e n s h =
        kept delta prog scombs k c used changed s h
    check_special-Step k (symbol name) c used changed c' used' changed' b e n s h =
        kept delta prog scombs k c used changed s h
    check_special-Step k (letrec rec body) c used changed c' used' changed' b e n s h =
        kept delta prog scombs k c used changed s h
    check_special-Step k (scref sc) c used changed c' used' changed' b e n s h =
        kept delta prog scombs k c used changed s h
    check_special-Step k nil c used changed c' used' changed' b e n s h =
        kept delta prog scombs k c used changed s h
    check_special-Step k (number num) c used changed c' used' changed' b e n s h =
        kept delta prog scombs k c used changed s h
    check_special-Step k (string value) c used changed c' used' changed' b e n s h =
        kept delta prog scombs k c used changed s h
