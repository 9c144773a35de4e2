-- ===== src/Compiler/Strictness/Returns.antt =====
-- The strictness analysis of a program returns.
use nreduce.Base.{
  ℕ, zero, suc, ◌+◌, ◌≤◌, ◌<◌, Bool, true, false, ◌||◌, ◌≡◌, refl, sym, ap, subst, ◌∙◌, List, [],
  ◌∷◌, length, get_elem?, Option, some, ◌>>=◌, inl, inr, arith, ◌⊎◌, Bool-cases,
}
use nreduce.Compiler.Syntax.{Name, Snode}
use nreduce.Compiler.Scombs.{Scomb}
use nreduce.Compiler.Strictness.{check_strictness_r}
use nreduce.Compiler.Strictness.Lists.{has_name}
use nreduce.Compiler.Strictness.Marks.{clear}
use nreduce.Compiler.Strictness.Analysis.{
  size, unset, unmarked, unset_flags, unset_strictin, unmarked_scombs, new_strictin, memcmp,
  set_elem, set_strictness, check_strictness, check_all, analysis_rounds,
}
use nreduce.Compiler.Strictness.Wellformed.{IsReady, HasFlags, AreFlagged, size-clear, get_elem?-lt}
use nreduce.Compiler.Strictness.Progress.{Progress}
use nreduce.Compiler.Strictness.Termination.{check_strictness_r-MarkedPass}

-- The supercombinators, of `n`, have lifted bodies and a flag for each argument.
abbrev pub AreRunnable : ℕ → List Scomb → Type 0
AreRunnable n [] = Unit
AreRunnable n (sc ∷ scombs) = (IsReady n (clear sc.body) × HasFlags sc) × AreRunnable n scombs

AreRunnable-AreFlagged : (n : ℕ) (scombs : List Scomb) → AreRunnable n scombs → AreFlagged scombs
AreRunnable-AreFlagged n [] r = tt
AreRunnable-AreFlagged n (sc ∷ scombs) r = (r.0.1, AreRunnable-AreFlagged n scombs r.1)

AreRunnable-at :
    (n : ℕ) (scombs : List Scomb) (i : ℕ) (sc : Scomb)
    → AreRunnable n scombs
    → get_elem? scombs i ≡ some sc
    → IsReady n (clear sc.body) × HasFlags sc
AreRunnable-at n [] i sc r e = cc
AreRunnable-at n (s ∷ scombs) zero sc r e =
    subst (λ (t : Scomb). IsReady n (clear t.body) × HasFlags t) {x = s} {y = sc} (cc) r.0
AreRunnable-at n (s ∷ scombs) (suc i) sc r e = AreRunnable-at n scombs i sc r.1 e

set_elem-AreRunnable :
    (n : ℕ) (scombs : List Scomb) (i : ℕ) (sc : Scomb)
    → AreRunnable n scombs
    → IsReady n (clear sc.body)
    → HasFlags sc
    → AreRunnable n (set_elem scombs i sc)
set_elem-AreRunnable n [] i sc r b f = tt
set_elem-AreRunnable n (s ∷ scombs) zero sc r b f = ((b, f), r.1)
set_elem-AreRunnable n (s ∷ scombs) (suc i) sc r b f =
    (r.0, set_elem-AreRunnable n scombs i sc r.1 b f)

length-set_elem :
    (scombs : List Scomb) (i : ℕ) (sc : Scomb) → length (set_elem scombs i sc) ≡ length scombs
length-set_elem [] i sc = refl
length-set_elem (s ∷ scombs) zero sc = refl
length-set_elem (s ∷ scombs) (suc i) sc = ap suc (length-set_elem scombs i sc)

-- The marks and flags left to set of one supercombinator.
abbrev left : Scomb → ℕ
left sc = unmarked sc.body + unset_strictin sc.strictin

unmarked_scombs-set_elem :
    (scombs : List Scomb) (i : ℕ) (sc old : Scomb)
    → get_elem? scombs i ≡ some old
    → unmarked_scombs (set_elem scombs i sc) + left old ≡ unmarked_scombs scombs + left sc
unfolding unmarked_scombs
unmarked_scombs-set_elem [] i sc old e = cc
unmarked_scombs-set_elem (s ∷ scombs) zero sc old e =
    let same : left s ≡ left old = ap left {x = s} {y = old} (cc) in omega (arith, same)
unmarked_scombs-set_elem (s ∷ scombs) (suc i) sc old e =
    omega (arith, unmarked_scombs-set_elem scombs i sc old e)

-- The new flags: as many, none cleared, and `memcmp` tells whether one was set.
record Flags (argnames : List Name) (old : List Bool) (used : List Name) : Type 0 where
  strictin : List Bool
  result : new_strictin argnames old used ≡ some strictin
  size : length strictin ≡ length argnames
  progress :
      ((memcmp old strictin ≡ false) × (unset_flags strictin ≡ unset_flags old))
      ⊎ ((memcmp old strictin ≡ true) × (unset_flags strictin < unset_flags old))

new_strictin-Flags :
    (argnames : List Name) (old : List Bool) (used : List Name)
    → length old ≡ length argnames
    → Flags argnames old used
unfolding new_strictin memcmp unset_flags unset
new_strictin-Flags [] [] used h = record {
  strictin = [];
  result = refl;
  size = refl;
  progress = inl (refl, refl);
}
new_strictin-Flags [] (b ∷ old) used h = absurd (omega arith)
new_strictin-Flags (x ∷ argnames) [] used h = absurd (omega arith)
new_strictin-Flags (x ∷ argnames) (true ∷ old) used h =
    let a = new_strictin-Flags argnames old used (omega arith) in
    record {
      strictin = true ∷ a.strictin;
      result = rw a.result refl;
      size = ap suc a.size;
      progress = ground (arith, a.progress);
    }
new_strictin-Flags (x ∷ argnames) (false ∷ old) used h =
    let a = new_strictin-Flags argnames old used (omega arith) in
    record {
      strictin = has_name used x ∷ a.strictin;
      result = rw a.result refl;
      size = ap suc a.size;
      progress = ground (arith, a.progress);
    }

-- What a pass over the supercombinators returns.
record MarkedScombs (r : Option (List Scomb × Bool)) (scombs : List Scomb) (changed : Bool)
    : Type 0 where
  after : List Scomb
  changed' : Bool
  result : r ≡ some (after, changed')
  count : length after ≡ length scombs
  runnable : AreRunnable (length after) after
  progress : Progress changed (unmarked_scombs scombs) changed' (unmarked_scombs after)

check_strictness_lem :
    (scombs : List Scomb) (scno : ℕ) (changed : Bool) (sc : Scomb) (body : Snode) (used : List Name)
    (changed1 : Bool) (old strictin : List Bool)
    → get_elem? scombs scno ≡ some sc
    → check_strictness_r scombs (size sc.body) sc.body [] changed ≡ some (body, used, changed1)
    → sc.strictin ≡ some old
    → new_strictin sc.argnames old used ≡ some strictin
    → check_strictness scombs scno changed
      ≡ some (
        set_elem scombs scno (record sc { body = body; strictin = some strictin }),
        memcmp old strictin || changed1,
      )
unfolding check_strictness set_strictness
check_strictness_lem scombs scno changed sc body used changed1 old strictin e c o n = rw e (
    rw c (
      subst
        (λ (f : Option (List Bool)).
          (f >>= set_strictness scombs scno sc body used changed1)
          ≡ some (
            set_elem scombs scno (record sc { body = body; strictin = some strictin }),
            memcmp old strictin || changed1,
          ))
        (sym o) (rw n refl)))

check_strictness-Marked :
    (scombs : List Scomb) (scno : ℕ) (changed : Bool)
    → scno < length scombs
    → AreRunnable (length scombs) scombs
    → MarkedScombs (check_strictness scombs scno changed) scombs changed
check_strictness-Marked scombs scno changed h r =
    let (sc, e) = get_elem?-lt scombs scno h in
    let (ready, flags) = AreRunnable-at (length scombs) scombs scno sc r e in
    let (old, e1, l) = flags in
    let a =
      check_strictness_r-MarkedPass scombs (AreRunnable-AreFlagged (length scombs) scombs r)
        (size sc.body) sc.body [] changed ready (omega (arith, size-clear sc.body)) in
    let b = new_strictin-Flags sc.argnames old a.used l in
    let new : Scomb = record sc { body = a.tree; strictin = some b.strictin } in
    let many = length-set_elem scombs scno new in
    record {
      after = set_elem scombs scno new;
      changed' = memcmp old b.strictin || a.changed';
      result =
          check_strictness_lem scombs scno changed sc a.tree a.used a.changed' old b.strictin e
            a.result e1 b.result;
      count = many;
      runnable =
          subst (λ (n : ℕ). AreRunnable n (set_elem scombs scno new)) (sym many)
            (set_elem-AreRunnable (length scombs) scombs scno new r
              (subst (IsReady (length scombs)) (sym a.same) ready) (b.strictin, refl, b.size));
      progress = ground (
        arith,
        a.progress,
        b.progress,
        unmarked_scombs-set_elem scombs scno new sc e,
        ap unset_strictin e1,
      );
    }

check_all-Marked :
    (scombs : List Scomb) (scno n : ℕ) (changed : Bool)
    → scno + n ≤ length scombs
    → AreRunnable (length scombs) scombs
    → MarkedScombs (check_all scombs scno n changed) scombs changed
unfolding check_all
check_all-Marked scombs scno zero changed h r = record {
  after = scombs;
  changed' = changed;
  result = refl;
  count = refl;
  runnable = r;
  progress = inl (refl, refl);
}
check_all-Marked scombs scno (suc n) changed h r =
    let a = check_strictness-Marked scombs scno changed (omega arith) r in
    let b = check_all-Marked a.after (suc scno) n a.changed' (omega (arith, a.count)) a.runnable in
    record {
      after = b.after;
      changed' = b.changed';
      result = rw a.result b.result;
      count = b.count ∙ a.count;
      runnable = b.runnable;
      progress = ground (arith, a.progress, b.progress);
    }

-- There are rounds enough.
pub analysis_rounds-returns :
    (rounds : ℕ) (scombs : List Scomb)
    → unmarked_scombs scombs < rounds
    → AreRunnable (length scombs) scombs
    → (scombs' : List Scomb) × (analysis_rounds rounds scombs ≡ some scombs')
unfolding analysis_rounds
analysis_rounds-returns zero scombs h r = absurd (omega arith)
analysis_rounds-returns (suc rounds) scombs h r =
    let a = check_all-Marked scombs 0 (length scombs) false (omega arith) r in
    elim (Bool-cases a.changed') [
      | inr stop ↦ (a.after, rw (a.result, stop) refl)
      | inl again ↦
          let less : unmarked_scombs a.after < rounds = ground (arith, a.progress) in
          let (scombs', e) = analysis_rounds-returns rounds a.after less a.runnable in
          (scombs', rw (a.result, again) e)
    ]
