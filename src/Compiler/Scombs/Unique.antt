-- ===== src/Compiler/Scombs/Unique.antt =====
-- Which names are taken, and the names that `add_scomb` (super.c) tries.
use nreduce.Base.{
  ℕ, zero, suc, ◌+◌, ◌<◌, Bool, true, false, ◌||◌, ◌≡◌, ◌≢◌, ◌↔◌, refl, sym, ap, ◌∙◌, List, [], ◌∷◌,
  ◌++◌, length, none, some, if◌then◌else◌, str_eq, str_eq_iff, str_eq_refl, str_eq-false, lt_or_eq,
  arith, inl, inr, Bool-cases, Option-cases,
}
use nreduce.Compiler.Syntax.{Name}
use nreduce.Compiler.Names.{decimal, decimal-injective}
use nreduce.Compiler.Scombs.{Scomb, Scombs, get_scomb, candidate}
use nreduce.Compiler.Scombs.Lookup.{name_at, last_at, newest, is_named, IsHashed, get_scomb-last_at}

-- Different numbers give different candidates.
append-injective : {A : Type 0} (xs ys zs : List A) → xs ++ ys ≡ xs ++ zs → ys ≡ zs
append-injective [] ys zs e = e
append-injective (x ∷ xs) ys zs e = append-injective xs ys zs (cc)

append-longer : {A : Type 0} (xs : List A) (y : A) (ys : List A) → xs ≢ xs ++ y ∷ ys
append-longer [] y ys e = cc
append-longer (x ∷ xs) y ys e = append-longer xs y ys (cc)

candidate-injective : (name : Name) (i j : ℕ) → candidate name i ≡ candidate name j → i ≡ j
candidate-injective name zero zero e = refl
candidate-injective name zero (suc j) e = absurd (append-longer name b'#' (decimal (suc j)) e)
candidate-injective name (suc i) zero e = absurd (append-longer name b'#' (decimal (suc i)) (sym e))
candidate-injective name (suc i) (suc j) e =
    let tails : b'#' ∷ decimal (suc i) ≡ b'#' ∷ decimal (suc j) =
      append-injective name (b'#' ∷ decimal (suc i)) (b'#' ∷ decimal (suc j)) e in
    decimal-injective (suc i) (suc j) cc

abbrev pub contains : List Name → Name → Bool
contains [] name = false
contains (n ∷ ns) name = str_eq n name || contains ns name

abbrev remove : List Name → Name → List Name
remove [] name = []
remove (n ∷ ns) name = if str_eq n name then ns else n ∷ remove ns name

length-remove :
    (ns : List Name) (name : Name)
    → contains ns name ≡ true
    → length ns ≡ suc (length (remove ns name))
length-remove [] name h = cc
length-remove (n ∷ ns) name h = ground (arith, length-remove ns name)

contains-remove :
    (ns : List Name) (gone name : Name)
    → str_eq gone name ≡ false
    → contains (remove ns gone) name ≡ contains ns name
contains-remove [] gone name h = refl
contains-remove (n ∷ ns) gone name h = ground (
  arith,
  contains-remove ns gone name h,
  str_eq_iff n gone,
  str_eq_iff n name,
  str_eq_iff gone name,
)

-- Among more candidates than there are names one is free.
pub free_candidate :
    (ns : List Name) (name : Name) (fuel num : ℕ)
    → length ns < fuel
    → (k : ℕ) × (k < fuel) × (contains ns (candidate name (num + k)) ≡ false)
free_candidate ns name zero num h = absurd (omega arith)
free_candidate ns name (suc fuel) num h = elim (Bool-cases (contains ns (candidate name num))) [
  | inl taken ↦
      let l = length-remove ns (candidate name num) taken in
      let (k, below, out) =
        free_candidate (remove ns (candidate name num)) name fuel (suc num) (omega arith) in
      let over : suc num + k ≡ num + suc k = omega arith in
      let ne : str_eq (candidate name num) (candidate name (suc num + k)) ≡ false =
        str_eq-false (candidate name num) (candidate name (suc num + k))
          (λ e. let same = candidate-injective name num (suc num + k) e in absurd (omega arith)) in
      (
        suc k,
        omega arith,
        ap (λ i. contains ns (candidate name i)) (sym over)
            ∙ sym (contains-remove ns (candidate name num) (candidate name (suc num + k)) ne)
            ∙ out,
      )
  | inr free ↦ (0, omega arith, ap (λ i. contains ns (candidate name i)) (zero_right num) ∙ free)
]
  where
    zero_right : (a : ℕ) → a + 0 ≡ a
    zero_right a = omega arith

-- The names in the array.
abbrev pub names_of : List Scomb → List Name
names_of [] = []
names_of (sc ∷ scs) = sc.name ∷ names_of scs

pub length-names_of : (scs : List Scomb) → length (names_of scs) ≡ length scs
length-names_of [] = refl
length-names_of (sc ∷ scs) = ap suc (length-names_of scs)

contains-name_at :
    (scs : List Scomb) (name other : Name) (i : ℕ)
    → contains (names_of scs) name ≡ false
    → name_at scs i ≡ some other
    → str_eq other name ≡ false
contains-name_at [] name other i c e = cc
contains-name_at (sc ∷ scs) name other zero c e = ground arith
contains-name_at (sc ∷ scs) name other (suc i) c e =
    contains-name_at scs name other i (ground arith) e

last_at-none :
    (test : Name → Bool) (scs : List Scomb) (n : ℕ)
    → ((i : ℕ) (other : Name) → name_at scs i ≡ some other → test other ≡ false)
    → last_at test scs n ≡ none
unfolding last_at
last_at-none test scs zero h = refl
last_at-none test scs (suc n) h = elim (Option-cases (name_at scs n)) [
  | inl none_here ↦
      ap (λ o. newest test o n (last_at test scs n)) none_here ∙ last_at-none test scs n h
  | inr (other, here) ↦
      ap (λ o. newest test o n (last_at test scs n)) here
      ∙ (rw (h n other here) (last_at-none test scs n h))
]

last_at-name_at :
    (test : Name → Bool) (scs : List Scomb) (n i : ℕ)
    → last_at test scs n ≡ some i
    → (other : Name) × (name_at scs i ≡ some other) × (test other ≡ true)
unfolding last_at
last_at-name_at test scs zero i e = cc
last_at-name_at test scs (suc n) i e = elim (Option-cases (name_at scs n)) [
  | inl none_here ↦
      last_at-name_at test scs n i
        (sym (ap (λ o. newest test o n (last_at test scs n)) none_here) ∙ e)
  | inr (other, here) ↦
      let e' : newest test (some other) n (last_at test scs n) ≡ some i =
        sym (ap (λ o. newest test o n (last_at test scs n)) here) ∙ e in
      elim (Bool-cases (test other)) [
        | inl hit ↦
            let n_eq : some n ≡ some i = rw hit at e' in
            let same : n ≡ i = cc in (other, ap (name_at scs) (sym same) ∙ here, hit)
        | inr miss ↦ last_at-name_at test scs n i (rw miss at e')
      ]
]

-- A name that no entry has is not found.
pub get_scomb-contains :
    (src : Scombs) (name : Name)
    → IsHashed src
    → contains (names_of src.scombs) name ≡ false
    → get_scomb src name ≡ none
get_scomb-contains src name o c =
    get_scomb-last_at src name o
    ∙ last_at-none (is_named name) src.scombs (length src.scombs)
        (λ i other e. contains-name_at src.scombs name other i c e)

-- Every supercombinator is found under its own name.
pub record IsUnique (src : Scombs) : Type 0 where
  pub found : (i : ℕ) (name : Name) → name_at src.scombs i ≡ some name → get_scomb src name ≡ some i

-- No two entries have the same name.
pub record IsDistinct (scombs : List Scomb) : Type 0 where
  pub distinct :
      (i j : ℕ) (name : Name) → name_at scombs i ≡ some name → name_at scombs j ≡ some name → i ≡ j

pub IsUnique-IsDistinct : (src : Scombs) → IsUnique src → IsDistinct src.scombs
IsUnique-IsDistinct src u = record {
  distinct =
      λ i j name a b. let same : some i ≡ some j = sym (u.found i name a) ∙ u.found j name b in cc;
}

name_at-lt : (scs : List Scomb) (i : ℕ) (name : Name) → name_at scs i ≡ some name → i < length scs
name_at-lt [] i name e = cc
name_at-lt (sc ∷ scs) zero name e = omega arith
name_at-lt (sc ∷ scs) (suc i) name e = omega (arith, name_at-lt scs i name e)

last_at-some :
    (test : Name → Bool) (scs : List Scomb) (n i : ℕ) (name : Name)
    → i < n
    → name_at scs i ≡ some name
    → test name ≡ true
    → (k : ℕ) × (last_at test scs n ≡ some k)
unfolding last_at
last_at-some test scs zero i name l e t = absurd (omega arith)
last_at-some test scs (suc n) i name l e t = elim (lt_or_eq i n l) [
  | inr here ↦ (
    n,
    ap (λ o. newest test o n (last_at test scs n)) (ap (name_at scs) (sym here) ∙ e) ∙ rw t refl,
  )
  | inl below ↦
      let (k, older) = last_at-some test scs n i name below e t in
      elim (Option-cases (name_at scs n)) [
        | inl none_here ↦ (k, ap (λ o. newest test o n (last_at test scs n)) none_here ∙ older)
        | inr (other, at) ↦
            let step = ap (λ o. newest test o n (last_at test scs n)) at in
            elim (Bool-cases (test other)) [
              | inl hit ↦ (n, step ∙ rw hit refl)
              | inr miss ↦ (k, step ∙ rw miss older)
            ]
      ]
]

-- In a table that is in order and has no name twice, a lookup leads to an entry exactly if the entry
-- has the name.
pub get_scomb_iff :
    (src : Scombs) (name : Name) (i : ℕ)
    → IsHashed src
    → IsDistinct src.scombs
    → (get_scomb src name ≡ some i) ↔ (name_at src.scombs i ≡ some name)
get_scomb_iff src name i o d = (
  named i,
  λ at.
      let (k, last) =
        last_at-some (is_named name) src.scombs (length src.scombs) i name
          (name_at-lt src.scombs i name at) at (str_eq_refl name) in
      let found : get_scomb src name ≡ some k = get_scomb-last_at src name o ∙ last in
      found ∙ ap some (d.distinct k i name (named k found) at),
)
  where
    named : (k : ℕ) → get_scomb src name ≡ some k → name_at src.scombs k ≡ some name
    named k e =
        let (other, here, same) =
          last_at-name_at (is_named name) src.scombs (length src.scombs) k
            (sym (get_scomb-last_at src name o) ∙ e) in
        here ∙ ap some ((str_eq_iff other name).0 same)
