-- ===== src/Compiler/Scombs/Add.antt =====
-- `add_scomb` (super.c): the name of the new supercombinator, and the table with it.
use nreduce.Base.{
  ℕ, zero, suc, ◌+◌, ◌<◌, true, false, ◌≡◌, refl, sym, ap, ◌∙◌, List, [], ◌∷◌, ◌++◌, length, none,
  some, ◌⊎◌, str_eq, str_eq_iff, str_eq-false, str_eq_refl, arith, inl, inr, Option-cases,
}
use native.Mathlib.Nat.{add-zero}
use nreduce.Compiler.Syntax.{Name}
use nreduce.Compiler.Scombs.{
  hash, Scomb, Scombs, get_scomb, before_hash, candidate, fresh_name, append_scomb, blank,
  add_scomb,
}
use nreduce.Compiler.Scombs.Lookup.{name_at, IsHashed}
use nreduce.Compiler.Scombs.Insert.{append_scomb-IsHashed, get_scomb-append_scomb}
use nreduce.Compiler.Scombs.Unique.{
  names_of, length-names_of, free_candidate, get_scomb-contains, IsUnique,
}

-- A free name: it is the base or the base with a number, and the base itself if that is free.
pub record IsFree (src : Scombs) (base name : Name) : Type 0 where
  pub absent : get_scomb src name ≡ none
  pub numbered : (num : ℕ) × (name ≡ candidate base num)
  pub plain : get_scomb src base ≡ none → name ≡ base

record Found (src : Scombs) (base name : Name) (num : ℕ) : Type 0 where
  absent : get_scomb src name ≡ none
  at_number : (k : ℕ) × (name ≡ candidate base k)
  first : get_scomb src (candidate base num) ≡ none → name ≡ candidate base num

fresh_name-step :
    (src : Scombs) (base : Name) (fuel num sc : ℕ)
    → get_scomb src (candidate base num) ≡ some sc
    → fresh_name src base (suc fuel) num ≡ fresh_name src base fuel (suc num)
unfolding fresh_name
fresh_name-step src base fuel num sc e = cc

fresh_name-here :
    (src : Scombs) (base : Name) (fuel num : ℕ)
    → get_scomb src (candidate base num) ≡ none
    → fresh_name src base (suc fuel) num ≡ some (candidate base num)
unfolding fresh_name
fresh_name-here src base fuel num e = cc

fresh_name-Found :
    (src : Scombs) (base : Name) (fuel num k : ℕ)
    → k < fuel
    → get_scomb src (candidate base (num + k)) ≡ none
    → (name : Name) × (fresh_name src base fuel num ≡ some name) × Found src base name num
fresh_name-Found src base zero num k l e = absurd (omega arith)
fresh_name-Found src base (suc fuel) num zero l e =
    let free = ap (λ i. get_scomb src (candidate base i)) (sym (add-zero num)) ∙ e in
    (
      candidate base num,
      fresh_name-here src base fuel num free,
      record { absent = free; at_number = (num, refl); first = λ _. refl },
    )
fresh_name-Found src base (suc fuel) num (suc k) l e =
    elim (Option-cases (get_scomb src (candidate base num))) [
      | inl free ↦ (
        candidate base num,
        fresh_name-here src base fuel num free,
        record { absent = free; at_number = (num, refl); first = λ _. refl },
      )
      | inr (sc, taken) ↦
          let over : num + suc k ≡ suc num + k = omega arith in
          let later = ap (λ i. get_scomb src (candidate base i)) (sym over) ∙ e in
          let (name, found, f) = fresh_name-Found src base fuel (suc num) k (omega arith) later in
          (
            name,
            fresh_name-step src base fuel num sc taken ∙ found,
            record { absent = f.absent; at_number = f.at_number; first = λ free. cc },
          )
    ]

-- There is always a free name.
fresh_name-IsFree :
    (src : Scombs) (base : Name)
    → IsHashed src
    → (name : Name) × (fresh_name src base (suc (length src.scombs)) 0 ≡ some name)
      × IsFree src base name
fresh_name-IsFree src base o =
    let (k, below, out) =
      free_candidate (names_of src.scombs) base (suc (length src.scombs)) 0
        (omega (arith, length-names_of src.scombs)) in
    let (name, found, f) =
      fresh_name-Found src base (suc (length src.scombs)) 0 k below
        (get_scomb-contains src (candidate base (0 + k)) o out) in
    (name, found, record { absent = f.absent; numbered = f.at_number; plain = f.first })

-- The table with one more entry, under a new name.
pub record IsAdded (src : Scombs) (base : Name) (src' : Scombs) (sc : ℕ) : Type 0 where
  pub name : Name
  pub is_free : IsFree src base name
  pub new_found : get_scomb src' name ≡ some sc
  pub others :
      (other : Name) → str_eq name other ≡ false → get_scomb src' other ≡ get_scomb src other
  pub hashed : IsHashed src'
  pub unique : IsUnique src'

name_at-append :
    (scs : List Scomb) (entry : Scomb) (i : ℕ) (name : Name)
    → name_at (scs ++ entry ∷ []) i ≡ some name
    → (name_at scs i ≡ some name) ⊎ ((i ≡ length scs) × (entry.name ≡ name))
name_at-append [] entry zero name e = inr (refl, cc)
name_at-append [] entry (suc i) name e = cc
name_at-append (sc ∷ scs) entry zero name e = inl e
name_at-append (sc ∷ scs) entry (suc i) name e = elim (name_at-append scs entry i name e) [
  | inl old ↦ inl old
  | inr (last, same) ↦ inr (ap suc last, same)
]

pub append_scomb-IsUnique :
    (src : Scombs) (sc : Scomb)
    → IsHashed src
    → IsUnique src
    → get_scomb src sc.name ≡ none
    → IsUnique (append_scomb src sc)
append_scomb-IsUnique src sc o u absent = record {
  found = λ i name e.
      let lookup = get_scomb-append_scomb src sc name o in
      elim (name_at-append src.scombs (record sc { hashnext = src.schash (hash sc.name) }) i name
        (unfold append_scomb in e)) [
          | inl old ↦
              let here : get_scomb src name ≡ some i = u.found i name old in
              let ne : str_eq sc.name name ≡ false =
                str_eq-false sc.name name (λ same. cc (ap (get_scomb src) same)) in
              lookup ∙ rw ne here
          | inr (new, same) ↦
              let hit : str_eq sc.name name ≡ true = (str_eq_iff sc.name name).1 same in
              lookup ∙ rw hit (ap some (sym new))
        ];
}

-- Adding a supercombinator succeeds in a table that is in order and unique, and leaves such a
-- table. The new entry has a name that was free, the name asked for up to '#' if that was free, and
-- a number behind it otherwise; every other name leads where it led before.
pub add_scomb-IsAdded :
    (src : Scombs) (name1 : Name)
    → IsHashed src
    → IsUnique src
    → (src' : Scombs) × (sc : ℕ) × (add_scomb src name1 ≡ some (src', sc))
      × IsAdded src (before_hash name1) src' sc
unfolding add_scomb
add_scomb-IsAdded src name1 o u =
    let (name, found, free) = fresh_name-IsFree src (before_hash name1) o in
    let src' = append_scomb src (blank name) in
    (
      src',
      length src.scombs,
      rw found refl,
      record {
        name = name;
        is_free = free;
        new_found = get_scomb-append_scomb src (blank name) name o ∙ rw (str_eq_refl name) refl;
        others = λ other ne. get_scomb-append_scomb src (blank name) other o ∙ rw ne refl;
        hashed = append_scomb-IsHashed src (blank name) o;
        unique = append_scomb-IsUnique src (blank name) o u free.absent;
      },
    )
