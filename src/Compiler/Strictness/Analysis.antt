-- ===== src/Compiler/Strictness/Analysis.antt =====
-- The strictness analysis of a program (`check_strictness` and `strictness_analysis` of
-- nreduce/compiler/strictness.c).
use nreduce.Base.{
  ℕ, zero, suc, ◌+◌, Bool, true, false, not, ◌||◌, List, [], ◌∷◌, length, get_elem?, Option, none,
  some, ◌>>=◌, if◌then◌else◌,
}
use nreduce.Compiler.Syntax.{
  Name, Snode, application, lambda, builtin, symbol, letrec, scref, nil, number, string, Letrec,
  done, binding,
}
use nreduce.Compiler.Scombs.{Scomb}
use nreduce.Compiler.Strictness.{check_strictness_r}
use nreduce.Compiler.Strictness.Lists.{has_name}

-- The number of the nodes and bindings of a tree, a bound on its depth.
unfoldable mutual
  pub size : Snode → ℕ
  size (application l r strict) = suc (size l + size r)
  size (lambda name body) = suc (size body)
  size (builtin bif) = 1
  size (symbol name) = 1
  size (letrec rec body) = suc (size_values rec + size body)
  size (scref sc) = 1
  size nil = 1
  size (number num) = 1
  size (string value) = 1

  pub size_values : Letrec → ℕ
  size_values done = 0
  size_values (binding name value strict rest) = suc (size value + size_values rest)

-- The loop over the arguments; `none` is a read past the end of `sc->strictin`.
unfoldable pub new_strictin : List Name → List Bool → List Name → Option (List Bool)
new_strictin [] strictin used = some []
new_strictin (x ∷ argnames) [] used = none
new_strictin (x ∷ argnames) (b ∷ strictin) used =
    new_strictin argnames strictin used >>= λ rest. some ((b || has_name used x) ∷ rest)

-- `memcmp` of the flags.
abbrev pub differ : Bool → Bool → Bool
differ true b = not b
differ false b = b

unfoldable pub memcmp : List Bool → List Bool → Bool
memcmp [] b = false
memcmp (x ∷ xs) [] = false
memcmp (x ∷ xs) (y ∷ ys) = differ x y || memcmp xs ys

abbrev pub set_elem : List Scomb → ℕ → Scomb → List Scomb
set_elem [] i sc = []
set_elem (s ∷ scombs) zero sc = sc ∷ scombs
set_elem (s ∷ scombs) (suc i) sc = s ∷ set_elem scombs i sc

-- The new body and flags of a supercombinator with the flags `old`.
unfoldable pub set_strictness :
    List Scomb
    → ℕ
    → Scomb
    → Snode
    → List Name
    → Bool
    → (old : List Bool) → Option (List Scomb × Bool)
set_strictness scombs scno sc body used changed old =
    new_strictin sc.argnames old used >>= λ strictin. some (
      set_elem scombs scno (record sc { body = body; strictin = some strictin }),
      memcmp old strictin || changed,
    )

-- The supercombinators and `changed` afterwards.
unfoldable pub check_strictness : List Scomb → ℕ → Bool → Option (List Scomb × Bool)
check_strictness scombs scno changed = get_elem? scombs scno >>= λ sc.
    check_strictness_r scombs (size sc.body) sc.body [] changed >>= λ (body, used, changed1).
    sc.strictin >>= set_strictness scombs scno sc body used changed1

-- The loop over the supercombinators, `n` of them from `scno` on.
unfoldable pub check_all : List Scomb → ℕ → ℕ → Bool → Option (List Scomb × Bool)
check_all scombs scno zero changed = some (scombs, changed)
check_all scombs scno (suc n) changed =
    check_strictness scombs scno changed >>= λ (scombs1, changed1).
    check_all scombs1 (suc scno) n changed1

-- The do-while loop.
unfoldable pub analysis_rounds : ℕ → List Scomb → Option (List Scomb)
analysis_rounds zero scombs = none
analysis_rounds (suc rounds) scombs =
    check_all scombs 0 (length scombs) false >>= λ (scombs1, changed).
    let more = analysis_rounds rounds scombs1 in if changed then more else some scombs1

-- `calloc`
abbrev pub all_false : List Name → List Bool
all_false [] = []
all_false (x ∷ xs) = false ∷ all_false xs

abbrev pub set_flags : Scomb → Option (List Bool) → Scomb
set_flags sc none = record sc { strictin = some (all_false sc.argnames) }
set_flags sc (some strictin) = sc

unfoldable pub init_strictin : List Scomb → List Scomb
init_strictin [] = []
init_strictin (sc ∷ scombs) = set_flags sc sc.strictin ∷ init_strictin scombs

-- The marks that are not set yet.
unfoldable pub unset : Bool → ℕ
unset true = 0
unset false = 1

unfoldable mutual
  pub unmarked : Snode → ℕ
  unmarked (application l r strict) = unset strict + (unmarked l + unmarked r)
  unmarked (lambda name body) = unmarked body
  unmarked (builtin bif) = 0
  unmarked (symbol name) = 0
  unmarked (letrec rec body) = unmarked_values rec + unmarked body
  unmarked (scref sc) = 0
  unmarked nil = 0
  unmarked (number num) = 0
  unmarked (string value) = 0

  pub unmarked_values : Letrec → ℕ
  unmarked_values done = 0
  unmarked_values (binding name value strict rest) =
      unset strict + (unmarked value + unmarked_values rest)

unfoldable pub unset_flags : List Bool → ℕ
unset_flags [] = 0
unset_flags (b ∷ bs) = unset b + unset_flags bs

abbrev pub unset_strictin : Option (List Bool) → ℕ
unset_strictin none = 0
unset_strictin (some strictin) = unset_flags strictin

unfoldable pub unmarked_scombs : List Scomb → ℕ
unmarked_scombs [] = 0
unmarked_scombs (sc ∷ scombs) =
    unmarked sc.body + unset_strictin sc.strictin + unmarked_scombs scombs

-- Each round but the last sets a mark, so there are no more rounds than marks to set, and one.
unfoldable pub strictness_analysis : List Scomb → Option (List Scomb)
strictness_analysis scombs =
    let start = init_strictin scombs in analysis_rounds (suc (unmarked_scombs start)) start
