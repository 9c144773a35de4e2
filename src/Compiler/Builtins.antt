-- ===== src/Compiler/Builtins.antt =====
-- The table of built-in functions and the lookup in it (nreduce/runtime/builtins.c and runtime.h).
-- A built-in function is its index; the C function behind it is left out.
use nreduce.Base.{
  ℕ, zero, suc, ◌+◌, ◌≤◌, Bool, true, false, not, ◌&&◌, ◌||◌, ◌≡◌, refl, sym, ap, subst, ◌∙◌, List,
  [], ◌∷◌, get_elem?, Option, none, some, if◌then◌else◌, str_eq, str_eq_iff, codes, leb, arith, inl,
  inr, Bool-cases,
}
use native.Mathlib.Nat.{add-zero, zero-add}
use nreduce.Compiler.Syntax.{Name}

-- `struct builtin`: is the result always a value, and is it always true?
pub record Builtin : Type 0 where
  pub name : Name
  pub nargs : ℕ
  pub nstrict : ℕ
  pub reswhnf : Bool
  pub restrue : Bool
  pub is_pure : Bool

abbrev row : Name → ℕ → ℕ → Bool → Bool → Bool → Builtin
row name nargs nstrict reswhnf restrue is_pure = record {
  name = name;
  nargs = nargs;
  nstrict = nstrict;
  reswhnf = reswhnf;
  restrue = restrue;
  is_pure = is_pure;
}

unfoldable pub builtin_info : List Builtin
builtin_info =
    row (codes "+") 2 2 true true true
    ∷ row (codes "-") 2 2 true true true
    ∷ row (codes "*") 2 2 true true true
    ∷ row (codes "/") 2 2 true true true
    ∷ row (codes "%") 2 2 true true true
    ∷ row (codes "==") 2 2 true false true
    ∷ row (codes "!=") 2 2 true false true
    ∷ row (codes "<") 2 2 true false true
    ∷ row (codes "<=") 2 2 true false true
    ∷ row (codes ">") 2 2 true false true
    ∷ row (codes ">=") 2 2 true false true
    ∷ row (codes "<<") 2 2 true true true
    ∷ row (codes ">>") 2 2 true true true
    ∷ row (codes "&") 2 2 true true true
    ∷ row (codes "|") 2 2 true true true
    ∷ row (codes "^") 2 2 true true true
    ∷ row (codes "~") 1 1 true true true
    ∷ row (codes "sqrt") 1 1 true true true
    ∷ row (codes "floor") 1 1 true true true
    ∷ row (codes "ceil") 1 1 true true true
    ∷ row (codes "ntos") 1 1 true true true
    ∷ row (codes "_ston") 1 1 true true true
    ∷ row (codes "if") 3 1 false false true
    ∷ row (codes "and") 2 2 true false true
    ∷ row (codes "or") 2 2 true false true
    ∷ row (codes "not") 1 1 true false true
    ∷ row (codes "cons") 2 0 true true true
    ∷ row (codes "head") 1 1 false false true
    ∷ row (codes "tail") 1 1 false false true
    ∷ row (codes "arraysize") 1 1 false true true
    ∷ row (codes "arrayskip") 2 2 false false true
    ∷ row (codes "arrayitem") 2 2 false false true
    ∷ row (codes "arrayprefix") 3 2 false false true
    ∷ row (codes "arraystrcmp") 2 2 true false true
    ∷ row (codes "teststring") 1 0 true true true
    ∷ row (codes "testarray") 2 0 true true true
    ∷ row (codes "seq") 2 1 false false false
    ∷ row (codes "par") 2 0 false false false
    ∷ row (codes "parhead") 2 1 false false false
    ∷ row (codes "openfd") 1 1 false false false
    ∷ row (codes "readchunk") 2 1 false false false
    ∷ row (codes "_readdir") 1 1 false false false
    ∷ row (codes "_exists") 1 1 true false false
    ∷ row (codes "_isdir") 1 1 true false false
    ∷ row (codes "_connect") 3 2 true false false
    ∷ row (codes "readcon") 2 1 true false false
    ∷ row (codes "_listen") 1 1 true false false
    ∷ row (codes "accept") 2 1 true false false
    ∷ row (codes "nchars") 1 1 true false true
    ∷ row (codes "print") 2 2 false false false
    ∷ row (codes "printarray") 3 3 false false false
    ∷ row (codes "printend") 1 1 false false false
    ∷ row (codes "_error") 1 1 true false false
    ∷ row (codes "getoutput") 1 1 true false false
    ∷ row (codes "genid") 1 1 true true false
    ∷ row (codes "exit") 1 1 true false false
    ∷ row (codes "abs") 1 1 true true true
    ∷ row (codes "_jnew") 2 2 true false false
    ∷ row (codes "_jcall") 3 3 true false false
    ∷ row (codes "iscons") 1 1 true false true
    ∷ row (codes "_cxslt") 2 2 true false true
    ∷ row (codes "_cache") 2 1 true false false
    ∷ row (codes "connpair") 1 1 true false false
    ∷ row (codes "mkconn") 1 1 true false false
    ∷ row (codes "_spawn") 2 2 true false false
    ∷ row (codes "_compile") 2 2 true false true
    ∷ row (codes "isspace") 1 1 true false true
    ∷ row (codes "lcons") 2 0 true true true
    ∷ row (codes "restring") 1 1 true false true
    ∷ row (codes "buildarray") 3 2 true false true
    ∷ row (codes "parsexmlfile") 1 1 true false true
    ∷ row (codes "genstring") 1 1 true false true
    ∷ []

-- The loop of `get_builtin` from entry `i` on.
unfoldable pub find_builtin : List Builtin → ℕ → Name → Option ℕ
find_builtin [] i name = none
find_builtin (b ∷ bs) i name =
    let rest = find_builtin bs (suc i) name in if str_eq name b.name then some i else rest

-- `none` is -1.
unfoldable pub get_builtin : Name → Option ℕ
get_builtin name = find_builtin builtin_info 0 name

-- No later entry has the name of an earlier one.
has_name : List Builtin → Name → Bool
has_name [] name = false
has_name (b ∷ bs) name = str_eq name b.name || has_name bs name

all_distinct : List Builtin → Bool
all_distinct [] = true
all_distinct (b ∷ bs) = not (has_name bs b.name) && all_distinct bs

builtin_info-distinct : all_distinct builtin_info ≡ true
unfolding all_distinct has_name builtin_info str_eq
builtin_info-distinct = refl

find_builtin-at :
    (bs : List Builtin) (k i : ℕ) (b : Builtin)
    → all_distinct bs ≡ true
    → get_elem? bs i ≡ some b
    → (find_builtin bs k b.name ≡ some (k + i)) × (has_name bs b.name ≡ true)
unfolding all_distinct find_builtin has_name
find_builtin-at [] k i b d e = cc
find_builtin-at (c ∷ bs) k zero b d e =
    let same : c ≡ b = cc in
    let hit : str_eq b.name c.name ≡ true =
      (str_eq_iff b.name c.name).1 (ap (λ (x : Builtin). x.name) (sym same)) in
    (rw hit (ap some (sym (add-zero k))), rw hit refl)
find_builtin-at (c ∷ bs) k (suc i) b d e =
    let (found, named) = find_builtin-at bs (suc k) i b (ground arith) e in
    let apart : has_name bs c.name ≡ false = ground arith in
    let over : suc k + i ≡ k + suc i = omega arith in
    elim (Bool-cases (str_eq b.name c.name)) [
      | inl same ↦ cc (ap (has_name bs) ((str_eq_iff b.name c.name).0 same))
      | inr differ ↦ (rw differ (found ∙ ap some over), rw differ named)
    ]

-- Each built-in function is found under its own name.
pub get_builtin-name :
    (i : ℕ) (b : Builtin) → get_elem? builtin_info i ≡ some b → get_builtin b.name ≡ some i
unfolding get_builtin
get_builtin-name i b e =
    (find_builtin-at builtin_info 0 i b builtin_info-distinct e).0 ∙ ap some (zero-add i)

all_within : List Builtin → Bool
all_within [] = true
all_within (b ∷ bs) = leb b.nstrict b.nargs && all_within bs

builtin_info-within : all_within builtin_info ≡ true
unfolding all_within builtin_info
builtin_info-within = refl

within-at :
    (bs : List Builtin) (i : ℕ) (b : Builtin)
    → all_within bs ≡ true
    → get_elem? bs i ≡ some b
    → b.nstrict ≤ b.nargs
unfolding all_within
within-at [] i b w e = cc
within-at (c ∷ bs) zero b w e =
    let same : c ≡ b = cc in subst (λ (x : Builtin). x.nstrict ≤ x.nargs) same (ground arith)
within-at (c ∷ bs) (suc i) b w e = within-at bs i b (ground arith) e

-- No built-in function is strict in more arguments than it takes.
pub builtin_info-strict :
    (i : ℕ) (b : Builtin) → get_elem? builtin_info i ≡ some b → b.nstrict ≤ b.nargs
builtin_info-strict i b e = within-at builtin_info i b builtin_info-within e
