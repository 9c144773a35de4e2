-- ===== src/Compiler/Strictness/Termination.antt =====
-- The strictness analyser ends: the rounds at a letrec, the recursion over a tree.
use nreduce.Base.{
  ℕ, zero, suc, ◌+◌, ◌≤◌, ◌<◌, Bool, true, false, ◌≡◌, refl, sym, ap, ap₂, subst, ◌∙◌, List, [],
  length, some, inl, inr, arith, Bool-cases,
}
use nreduce.Compiler.Syntax.{
  Name, Snode, application, lambda, builtin, symbol, letrec, scref, nil, number, string, Letrec,
  done, binding, bound_names,
}
use nreduce.Compiler.Scombs.{Scomb}
use nreduce.Compiler.Strictness.{
  Pass, Result, check_bindings, mark_bindings, marks_again, check_rounds, add_free,
  check_strictness_r,
}
use nreduce.Compiler.Strictness.Lists.{add_var}
use nreduce.Compiler.Strictness.Marks.{clear, clear_values}
use nreduce.Compiler.Strictness.Analysis.{size, size_values, unset, unmarked, unmarked_values}
use nreduce.Compiler.Strictness.Wellformed.{IsReady, AreReady, AreFlagged}
use nreduce.Compiler.Strictness.CallProgress.{check_application-Marked}
use nreduce.Compiler.Strictness.Progress.{Progress, Marked, MarkedPass, unchanged}

-- The bindings that are not marked.
unfoldable unset_bindings : Letrec → ℕ
unset_bindings done = 0
unset_bindings (binding name value strict rest) = unset strict + unset_bindings rest

unset_bindings-length : (rec : Letrec) → unset_bindings rec ≤ length (bound_names rec)
unfolding unset_bindings unset
unset_bindings-length done = omega arith
unset_bindings-length (binding name value strict rest) = ground (arith, unset_bindings-length rest)

-- What a pass returns on the bindings.
record MarkedRec (r : Result Letrec) (rec : Letrec) (changed : Bool) : Type 0 where
  tree : Letrec
  used : List Name
  changed' : Bool
  result : r ≡ some (tree, used, changed')
  same : clear_values tree ≡ clear_values rec
  bindings : unset_bindings tree ≡ unset_bindings rec
  progress : Progress changed (unmarked_values rec) changed' (unmarked_values tree)

-- What the loop at a letrec returns.
record MarkedRounds (r : Result (Letrec × Snode)) (rec : Letrec) (body : Snode) (changed : Bool)
    : Type 0 where
  rec' : Letrec
  body' : Snode
  used : List Name
  changed' : Bool
  result : r ≡ some ((rec', body'), used, changed')
  same_values : clear_values rec' ≡ clear_values rec
  same_body : clear body' ≡ clear body
  progress :
      Progress changed
        (unmarked_values rec + unmarked body)
        changed'
        (unmarked_values rec' + unmarked body')

-- Another round means new marks.
marks_again-unset :
    (rec : Letrec) (used : List Name)
    → (unset_bindings (mark_bindings rec used) ≤ unset_bindings rec)
      × (unmarked_values (mark_bindings rec used) ≤ unmarked_values rec)
      × (marks_again rec used ≡ true
          → (unset_bindings (mark_bindings rec used) < unset_bindings rec)
            × (unmarked_values (mark_bindings rec used) < unmarked_values rec))
unfolding mark_bindings marks_again unset_bindings unmarked_values unset
marks_again-unset done used = (omega arith, omega arith, λ h. cc)
marks_again-unset (binding name value strict rest) used =
    ground (arith, marks_again-unset rest used)

clear_values-marked :
    (rec : Letrec) (used : List Name) → clear_values (mark_bindings rec used) ≡ clear_values rec
unfolding clear_values mark_bindings
clear_values-marked done used = refl
clear_values-marked (binding name value strict rest) used =
    ap (λ (r : Letrec). binding name (clear value) false r) (clear_values-marked rest used)

module _ (n fuel : ℕ) (go : Pass) (passes : MarkedPass n fuel go) where
  check_bindings-Marked :
      (rec : Letrec) (used : List Name) (changed : Bool)
      → AreReady n (clear_values rec)
      → size_values (clear_values rec) ≤ fuel
      → MarkedRec (check_bindings go rec used changed) rec changed
  unfolding check_bindings clear_values AreReady size_values unset_bindings unmarked_values
  check_bindings-Marked done used changed i z = record {
    tree = done;
    used = used;
    changed' = changed;
    result = refl;
    same = refl;
    bindings = refl;
    progress = inl (refl, refl);
  }
  check_bindings-Marked (binding name value true rest) used changed i z =
      let a = passes value used changed i.0 (omega arith) in
      let b = check_bindings-Marked rest a.used a.changed' i.1 (omega arith) in
      record {
        tree = binding name a.tree true b.tree;
        used = b.used;
        changed' = b.changed';
        result = rw (a.result, b.result) refl;
        same = ap₂ (λ (x : Snode) (y : Letrec). binding name x false y) a.same b.same;
        bindings = omega (arith, b.bindings);
        progress = ground (arith, a.progress, b.progress);
      }
  check_bindings-Marked (binding name value false rest) used changed i z =
      let b = check_bindings-Marked rest used changed i.1 (omega arith) in
      record {
        tree = binding name value false b.tree;
        used = b.used;
        changed' = b.changed';
        result = rw b.result refl;
        same = ap (λ (y : Letrec). binding name (clear value) false y) b.same;
        bindings = omega (arith, b.bindings);
        progress = ground (arith, b.progress);
      }

  check_rounds-Marked :
      (rounds : ℕ) (rec : Letrec) (body : Snode) (bodyused : List Name) (changed : Bool)
      → AreReady n (clear_values rec)
      → IsReady n (clear body)
      → size_values (clear_values rec) ≤ fuel
      → size (clear body) ≤ fuel
      → unset_bindings rec < rounds
      → MarkedRounds (check_rounds go rounds rec body bodyused changed) rec body changed
  unfolding check_rounds
  check_rounds-Marked zero rec body bodyused changed i j z y h = absurd (omega arith)
  check_rounds-Marked (suc rounds) rec body bodyused changed i j z y h =
      let a = check_bindings-Marked rec bodyused changed i z in
      let b = passes body a.used a.changed' j y in
      elim (Bool-cases (marks_again a.tree b.used)) [
        | inr stop ↦ record {
          rec' = a.tree;
          body' = b.tree;
          used = b.used;
          changed' = b.changed';
          result = rw (a.result, b.result, stop) refl;
          same_values = a.same;
          same_body = b.same;
          progress = ground (arith, a.progress, b.progress);
        }
        | inl again ↦
            let less = (marks_again-unset a.tree b.used).2 again in
            let values = clear_values-marked a.tree b.used ∙ a.same in
            let c =
              check_rounds-Marked rounds (mark_bindings a.tree b.used) b.tree b.used true
                (subst (AreReady n) (sym values) i) (subst (IsReady n) (sym b.same) j)
                (subst (λ (r : Letrec). size_values r ≤ fuel) (sym values) z)
                (subst (λ (r : Snode). size r ≤ fuel) (sym b.same) y)
                (omega (arith, less.0, a.bindings)) in
            record {
              rec' = c.rec';
              body' = c.body';
              used = c.used;
              changed' = c.changed';
              result = rw (a.result, b.result, again) c.result;
              same_values = c.same_values ∙ values;
              same_body = c.same_body ∙ b.same;
              progress = ground (arith, a.progress, b.progress, c.progress, less);
            }
      ]

size-positive : (c : Snode) → 0 < size c
unfolding size
size-positive (application l r strict) = omega arith
size-positive (lambda name body) = omega arith
size-positive (builtin bif) = omega arith
size-positive (symbol name) = omega arith
size-positive (letrec rec body) = omega arith
size-positive (scref sc) = omega arith
size-positive nil = omega arith
size-positive (number num) = omega arith
size-positive (string value) = omega arith

module _ (scombs : List Scomb) (flagged : AreFlagged scombs) where
  letrec-Marked :
      (fuel : ℕ) (rec : Letrec) (body : Snode) (used : List Name) (changed : Bool)
      → IsReady (length scombs) (clear (letrec rec body))
      → size (clear (letrec rec body)) ≤ suc fuel
      → MarkedPass (length scombs) fuel (check_strictness_r scombs fuel)
      → Marked
          (check_strictness_r scombs (suc fuel) (letrec rec body) used changed)
          (letrec rec body)
          changed
  unfolding check_strictness_r IsReady clear size unmarked
  letrec-Marked fuel rec body used changed i z passes =
      let a =
        check_rounds-Marked (length scombs) fuel (check_strictness_r scombs fuel) passes
          (suc (length (bound_names rec))) rec body [] changed i.1 i.2 (omega arith) (omega arith)
          (omega (arith, unset_bindings-length rec)) in
      record {
        tree = letrec a.rec' a.body';
        used = add_free (bound_names a.rec') a.used used;
        changed' = a.changed';
        result = rw a.result refl;
        same = ap₂ letrec a.same_values a.same_body;
        progress = a.progress;
      }

  -- With a flag for each argument of each supercombinator, a pass over a lifted tree of at most
  -- `fuel` nodes returns the same tree but for its marks; either `changed` and the number of marks
  -- left to set are as before, or `changed` is set and the number has gone down.
  pub check_strictness_r-MarkedPass :
      (fuel : ℕ) → MarkedPass (length scombs) fuel (check_strictness_r scombs fuel)
  unfolding check_strictness_r
  check_strictness_r-MarkedPass zero c used changed i z =
      absurd (omega (arith, size-positive (clear c)))
  check_strictness_r-MarkedPass (suc fuel) (application l r strict) used changed i z =
      check_application-Marked scombs fuel (check_strictness_r scombs fuel)
        (check_strictness_r-MarkedPass fuel) l r strict used changed flagged i z
  check_strictness_r-MarkedPass (suc fuel) (letrec rec body) used changed i z =
      letrec-Marked fuel rec body used changed i z (check_strictness_r-MarkedPass fuel)
  check_strictness_r-MarkedPass (suc fuel) (lambda name body) used changed i z =
      absurd (unfold IsReady clear in i)
  check_strictness_r-MarkedPass (suc fuel) (builtin bif) used changed i z =
      unchanged (builtin bif) used changed
  check_strictness_r-MarkedPass (suc fuel) (symbol name) used changed i z = record {
    tree = symbol name;
    used = add_var used name;
    changed' = changed;
    result = refl;
    same = refl;
    progress = inl (refl, refl);
  }
  check_strictness_r-MarkedPass (suc fuel) (scref sc) used changed i z =
      unchanged (scref sc) used changed
  check_strictness_r-MarkedPass (suc fuel) nil used changed i z = unchanged nil used changed
  check_strictness_r-MarkedPass (suc fuel) (number num) used changed i z =
      unchanged (number num) used changed
  check_strictness_r-MarkedPass (suc fuel) (string value) used changed i z =
      unchanged (string value) used changed
