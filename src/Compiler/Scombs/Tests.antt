-- ===== src/Compiler/Scombs/Tests.antt =====
-- A table with one supercombinator, and a second one with the same name.
use nreduce.Base.{ℕ, true, false, ◌≡◌, ◌↔◌, refl, [], ◌∷◌, length, none, some, codes, str_eq, arith}
use nreduce.Compiler.Syntax.{Name}
use nreduce.Compiler.Names.{decimal, decimal_from}
use nreduce.Compiler.Scombs.{
  Scombs, hash, char_sum, get_scomb, walk, append_scomb, blank, add_scomb, before_hash, fresh_name,
  schash_rebuild, schash_check, chains_hashed, chain_hashed, all_in_chain, in_chain,
}
use nreduce.Compiler.Scombs.Lookup.{name_at, last_at, is_named, IsHashed}
use nreduce.Compiler.Scombs.Insert.{append_scomb-IsHashed}
use nreduce.Compiler.Scombs.Unique.{IsUnique, IsUnique-IsDistinct, get_scomb_iff}
use nreduce.Compiler.Scombs.Add.{IsAdded, append_scomb-IsUnique, add_scomb-IsAdded}
use nreduce.Compiler.Scombs.Rebuild.{IsRebuilt, schash_rebuild-IsRebuilt}
use nreduce.Compiler.Scombs.Checked.{IsChecked, schash_check-IsChecked}

abbrev empty : Scombs
empty = record { scombs = []; schash = λ h. none }

empty-IsHashed : IsHashed empty
unfolding last_at
empty-IsHashed = record {
  heads = λ h. refl;
  linked = record { next = λ i sc l e. absurd (omega arith) };
}

empty-IsUnique : IsUnique empty
empty-IsUnique = record { found = λ i name e. cc }

one : Scombs
one = append_scomb empty (blank (codes "f"))

one-IsHashed : IsHashed one
unfolding one
one-IsHashed = append_scomb-IsHashed empty (blank (codes "f")) empty-IsHashed

one-IsUnique : IsUnique one
unfolding one get_scomb walk
one-IsUnique = append_scomb-IsUnique empty (blank (codes "f")) empty-IsHashed empty-IsUnique refl

-- The second `f` is entered as `f#1`.
add_scomb_run : fresh_name one (before_hash (codes "f#7")) 2 0 ≡ some (codes "f#1")
unfolding one append_scomb fresh_name before_hash get_scomb walk hash char_sum str_eq decimal
    decimal_from
add_scomb_run = refl

add_scomb-IsAdded_example :
    (src' : Scombs) × (sc : ℕ) × (add_scomb one (codes "f#7") ≡ some (src', sc))
    × IsAdded one (before_hash (codes "f#7")) src' sc
add_scomb-IsAdded_example = add_scomb-IsAdded one (codes "f#7") one-IsHashed one-IsUnique

get_scomb_iff_example :
    (get_scomb one (codes "f") ≡ some 0) ↔ (name_at one.scombs 0 ≡ some (codes "f"))
get_scomb_iff_example =
    get_scomb_iff one (codes "f") 0 one-IsHashed (IsUnique-IsDistinct one one-IsUnique)

schash_check-IsChecked_example :
    (IsHashed one → schash_check one ≡ true) × (schash_check one ≡ true → IsChecked one)
schash_check-IsChecked_example = schash_check-IsChecked one

-- An entry in a chain of another hash, and an entry in no chain.
abbrev astray : Scombs
astray = record { scombs = blank (codes "f") ∷ []; schash = λ h. some 0 }

abbrev missing : Scombs
missing = record { scombs = blank (codes "f") ∷ []; schash = λ h. none }

schash_check_run : (schash_check astray ≡ false) × (schash_check missing ≡ false)
unfolding schash_check chains_hashed chain_hashed all_in_chain in_chain hash char_sum
schash_check_run = (refl, refl)

-- The array of `one` without its table.
abbrev lost : Scombs
lost = record { scombs = blank (codes "f") ∷ blank (codes "g") ∷ []; schash = λ h. some 9 }

schash_rebuild-IsRebuilt_example :
    IsRebuilt lost (schash_rebuild lost)
    × ((name : Name)
        → get_scomb (schash_rebuild lost) name
          ≡ last_at (is_named name) lost.scombs (length lost.scombs))
schash_rebuild-IsRebuilt_example = schash_rebuild-IsRebuilt lost
