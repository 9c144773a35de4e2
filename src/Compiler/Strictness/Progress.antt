-- ===== src/Compiler/Strictness/Progress.antt =====
-- The passes of the strictness analyser over a lifted tree: they return, set marks, and tell in
-- `changed` whether they did.
use nreduce.Base.{
  ℕ, suc, ◌≤◌, ◌<◌, Bool, true, false, not, ◌||◌, ◌≡◌, refl, sym, ap, ap₂, subst, List, [], length,
  Option, some, ◌>>=◌, inl, arith, ◌⊎◌,
}
use nreduce.Compiler.Syntax.{
  Name, Snode, application, lambda, builtin, symbol, letrec, scref, nil, number, string,
}
use nreduce.Compiler.Scombs.{Scomb}
use nreduce.Compiler.Strictness.{
  spine_nargs, fun_strictin, Pass, Result, check_arg, check_args, check_if, check_seq, check_left,
}
use nreduce.Compiler.Strictness.Lists.{add_union}
use nreduce.Compiler.Strictness.Marks.{clear}
use nreduce.Compiler.Strictness.Analysis.{size, unset, unmarked}
use nreduce.Compiler.Strictness.Wellformed.{IsReady}

-- Either nothing happened, or `changed` is set and there are less marks left to set.
abbrev pub Progress : Bool → ℕ → Bool → ℕ → Type 0
Progress changed left changed' left' =
    ((changed' ≡ changed) × (left' ≡ left)) ⊎ ((changed' ≡ true) × (left' < left))

-- What a pass returns on a tree.
pub record Marked (r : Result Snode) (c : Snode) (changed : Bool) : Type 0 where
  pub tree : Snode
  pub used : List Name
  pub changed' : Bool
  pub result : r ≡ some (tree, used, changed')
  pub same : clear tree ≡ clear c
  pub progress : Progress changed (unmarked c) changed' (unmarked tree)

-- A pass that returns on the lifted trees of at most `fuel` nodes.
abbrev pub MarkedPass : ℕ → ℕ → Pass → Type 0
MarkedPass n fuel go =
    (c : Snode) (used : List Name) (changed : Bool)
    → IsReady n (clear c)
    → size (clear c) ≤ fuel
    → Marked (go c used changed) c changed

pub unchanged :
    (c : Snode) (used : List Name) (changed : Bool) → Marked (some (c, used, changed)) c changed
unchanged c used changed = record {
  tree = c;
  used = used;
  changed' = changed;
  result = refl;
  same = refl;
  progress = inl (refl, refl);
}

module _ (scombs : List Scomb) (fuel : ℕ) (go : Pass)
    (passes : MarkedPass (length scombs) fuel go) where
  check_arg-Marked :
      (others : List Name → Bool → Result Snode) (l r : Snode) (strict isstrict : Bool)
      (used : List Name) (changed : Bool)
      → ((used1 : List Name) (changed1 : Bool) → Marked (others used1 changed1) l changed1)
      → ((used1 : List Name) (changed1 : Bool) → Marked (go r used1 changed1) r changed1)
      → Marked (check_arg go others r strict isstrict used changed) (application l r strict) changed
  unfolding check_arg clear unmarked unset
  check_arg-Marked others l r strict true used changed rest arg =
      let a = arg used (changed || not strict) in
      let b = rest a.used a.changed' in
      record {
        tree = application b.tree a.tree true;
        used = b.used;
        changed' = b.changed';
        result = rw (a.result, b.result) refl;
        same = ap₂ (λ (x y : Snode). application x y false) b.same a.same;
        progress = ground (arith, a.progress, b.progress);
      }
  check_arg-Marked others l r strict false used changed rest arg =
      let b = rest used changed in
      record {
        tree = application b.tree r strict;
        used = b.used;
        changed' = b.changed';
        result = rw b.result refl;
        same = ap (λ (x : Snode). application x (clear r) false) b.same;
        progress = ground (arith, b.progress);
      }

  pub check_args-Marked :
      (fun : Snode) (app : Snode) (used : List Name) (changed : Bool)
      → IsReady (length scombs) (clear app)
      → size (clear app) ≤ suc fuel
      → ((i : ℕ) → i < spine_nargs app → (b : Bool) × (fun_strictin scombs fun i ≡ some b))
      → Marked (check_args scombs go fun (spine_nargs app) app used changed) app changed
  unfolding check_args spine_nargs clear IsReady size
  check_args-Marked fun (application l r strict) used changed i z flags =
      let (b, e) = flags (spine_nargs l) (omega arith) in
      subst
        (λ (o : Option Bool).
          Marked
            (o >>= λ isstrict.
              check_arg go (check_args scombs go fun (spine_nargs l) l) r strict isstrict used
                changed)
            (application l r strict) changed)
        (sym e)
        (check_arg-Marked (check_args scombs go fun (spine_nargs l) l) l r strict b used changed
          (λ used1 changed1.
            check_args-Marked fun l used1 changed1 i.0 (omega arith)
              (λ j less. flags j (omega arith)))
          (λ used1 changed1. passes r used1 changed1 i.1 (omega arith)))
  check_args-Marked fun (lambda name body) used changed i z flags =
      unchanged (lambda name body) used changed
  check_args-Marked fun (builtin bif) used changed i z flags = unchanged (builtin bif) used changed
  check_args-Marked fun (symbol name) used changed i z flags = unchanged (symbol name) used changed
  check_args-Marked fun (letrec rec body) used changed i z flags =
      unchanged (letrec rec body) used changed
  check_args-Marked fun (scref sc) used changed i z flags = unchanged (scref sc) used changed
  check_args-Marked fun nil used changed i z flags = unchanged nil used changed
  check_args-Marked fun (number num) used changed i z flags = unchanged (number num) used changed
  check_args-Marked fun (string value) used changed i z flags =
      unchanged (string value) used changed

  pub check_if-Marked :
      (l t f : Snode) (s1 s2 : Bool) (used : List Name) (changed : Bool)
      → IsReady (length scombs) (clear (application (application l t s1) f s2))
      → size (clear (application (application l t s1) f s2)) ≤ suc fuel
      → Marked
          (check_if go (application (application l t s1) f s2) used changed)
          (application (application l t s1) f s2)
          changed
  unfolding check_if clear IsReady size unmarked
  check_if-Marked l t f s1 s2 used changed i z =
      let a = passes t [] changed i.0.1 (omega arith) in
      let b = passes f [] a.changed' i.1 (omega arith) in
      record {
        tree = application (application l a.tree s1) b.tree s2;
        used = add_union used a.used b.used;
        changed' = b.changed';
        result = rw (a.result, b.result) refl;
        same =
            ap₂ (λ (x y : Snode). application (application (clear l) x false) y false) a.same
              b.same;
        progress = ground (arith, a.progress, b.progress);
      }

  pub check_seq-Marked :
      (l r : Snode) (strict : Bool) (used : List Name) (changed : Bool)
      → IsReady (length scombs) (clear (application l r strict))
      → size (clear (application l r strict)) ≤ suc fuel
      → Marked (check_seq go (application l r strict) used changed) (application l r strict) changed
  unfolding check_seq clear IsReady size unmarked
  check_seq-Marked l r strict used changed i z =
      let a = passes r [] changed i.1 (omega arith) in
      record {
        tree = application l a.tree strict;
        used = used;
        changed' = a.changed';
        result = rw a.result refl;
        same = ap (λ (x : Snode). application (clear l) x false) a.same;
        progress = ground (arith, a.progress);
      }

  pub check_left-Marked :
      (l r : Snode) (strict : Bool) (used : List Name) (changed : Bool)
      → IsReady (length scombs) (clear (application l r strict))
      → size (clear (application l r strict)) ≤ suc fuel
      → Marked
          (check_left go (application l r strict) used changed)
          (application l r strict)
          changed
  unfolding check_left clear IsReady size unmarked
  check_left-Marked l r strict used changed i z =
      let a = passes l used changed i.0 (omega arith) in
      record {
        tree = application a.tree r strict;
        used = a.used;
        changed' = a.changed';
        result = rw a.result refl;
        same = ap (λ (x : Snode). application x (clear r) false) a.same;
        progress = ground (arith, a.progress);
      }
