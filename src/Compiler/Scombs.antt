-- ===== src/Compiler/Scombs.antt =====
-- The supercombinators and the hash table over their names (nreduce/compiler/super.c, and `hash` of
-- nreduce/network/util.c). A pointer to a supercombinator is its index in `src->scombs`.
pub mod Lookup
pub mod Insert
pub mod Unique
pub mod Add
pub mod Rebuild
pub mod Check
pub mod Checked
mod Tests
use nreduce.Base.{
  ℕ, zero, suc, ◌+◌, ◌-◌, ◌%◌, Bool, true, false, not, ◌&&◌, ◌||◌, List, [], ◌∷◌, ◌++◌, length,
  get_elem?, Option, none, some, ◌>>=◌, ◌==◌, ltb, if◌then◌else◌, str_eq, codes,
}
use nreduce.Compiler.Syntax.{Name, Snode}
use nreduce.Compiler.Names.{decimal}

-- GLOBAL_HASH_SIZE
abbrev pub global_hash_size : ℕ
global_hash_size = 4096

-- A byte as a signed `char`, up to multiples of the table's size: a negative one counts as what is
-- left of the size.
abbrev pub char_value : ℕ → ℕ
char_value b = if ltb b 128 then b else global_hash_size + b - 256

unfoldable pub char_sum : List ℕ → ℕ
char_sum [] = 0
char_sum (b ∷ bs) = char_value b + char_sum bs

unfoldable pub hash : List ℕ → ℕ
hash mem = char_sum mem % global_hash_size

-- `struct scomb`, the fields that the passes modelled here read.
pub record Scomb : Type 0 where
  pub name : Name
  pub argnames : List Name
  pub body : Snode
  pub strictin : Option (List Bool)
  pub modname : Option Name
  pub hashnext : Option ℕ

-- The part of `struct source` with the supercombinators: the array, and the first entry of each
-- chain.
pub record Scombs : Type 0 where
  pub scombs : List Scomb
  pub schash : ℕ → Option ℕ

-- The loop of `get_scomb` along a chain. A chain has no more entries than there are
-- supercombinators.
unfoldable pub walk : List Scomb → ℕ → Option ℕ → Name → Option ℕ
walk scombs zero sc name = none
walk scombs (suc fuel) none name = none
walk scombs (suc fuel) (some sc) name = get_elem? scombs sc >>= λ s.
    let rest = walk scombs fuel s.hashnext name in if str_eq s.name name then some sc else rest

unfoldable pub get_scomb : Scombs → Name → Option ℕ
get_scomb src name = walk src.scombs (suc (length src.scombs)) (src.schash (hash name)) name

-- The name up to the first '#'.
unfoldable pub before_hash : Name → Name
before_hash [] = []
before_hash (c ∷ cs) = if c == b'#' then [] else c ∷ before_hash cs

abbrev pub candidate : Name → ℕ → Name
candidate name zero = name
candidate name (suc num) = name ++ b'#' ∷ decimal (suc num)

-- The loop of `add_scomb` over the numbers, from `num` on.
unfoldable pub fresh_name : Scombs → Name → ℕ → ℕ → Option Name
fresh_name src name zero num = none
fresh_name src name (suc fuel) num =
    let rest = fresh_name src name fuel (suc num) in
    elim (get_scomb src (candidate name num)) [ none ↦ some (candidate name num) | some sc ↦ rest ]

abbrev pub set_head : (ℕ → Option ℕ) → ℕ → ℕ → ℕ → Option ℕ
set_head schash h sc i = if i == h then some sc else schash i

-- The new supercombinator goes to the end of the array and to the front of its chain.
unfoldable pub append_scomb : Scombs → Scomb → Scombs
append_scomb src sc =
    let h = hash sc.name in
    record {
      scombs = src.scombs ++ record sc { hashnext = src.schash h } ∷ [];
      schash = set_head src.schash h (length src.scombs);
    }

-- An empty entry under a name that is not taken yet; `calloc` leaves the body a null pointer, for
-- which `nil` stands, and so it leaves `strictin`.
abbrev pub blank : Name → Scomb
blank name = record {
  name = name;
  argnames = [];
  body = Snode.nil;
  strictin = none;
  modname = none;
  hashnext = none;
}

-- The source with the new entry, and the entry. There are as many numbers to try as there are
-- supercombinators, and one more.
unfoldable pub add_scomb : Scombs → Name → Option (Scombs × ℕ)
add_scomb src name1 = fresh_name src (before_hash name1) (suc (length src.scombs)) 0 >>= λ name.
    some (append_scomb src (blank name), length src.scombs)

-- Writes of an array element.
abbrev pub set_hashnext : List Scomb → ℕ → Option ℕ → List Scomb
set_hashnext [] i next = []
set_hashnext (sc ∷ scs) zero next = record sc { hashnext = next } ∷ scs
set_hashnext (sc ∷ scs) (suc i) next = sc ∷ set_hashnext scs i next

abbrev pub clear_hashnext : List Scomb → List Scomb
clear_hashnext [] = []
clear_hashnext (sc ∷ scs) = record sc { hashnext = none } ∷ clear_hashnext scs

-- `n` rounds of the second loop of `schash_rebuild`, from `scno` on.
unfoldable pub rebuild_from : Scombs → ℕ → ℕ → Scombs
rebuild_from src scno zero = src
rebuild_from src scno (suc n) = elim (get_elem? src.scombs scno) [
  | none ↦ src
  | some sc ↦
      let h = hash sc.name in
      rebuild_from
        (record {
          scombs = set_hashnext src.scombs scno (src.schash h);
          schash = set_head src.schash h scno;
        })
        (suc scno) n
]

unfoldable pub schash_rebuild : Scombs → Scombs
schash_rebuild src =
    rebuild_from (record { scombs = clear_hashnext src.scombs; schash = λ h. none }) 0
      (length src.scombs)

-- Is every entry of a chain, from `sc` on, in its own chain?
unfoldable pub chain_hashed : List Scomb → ℕ → Option ℕ → ℕ → Bool
chain_hashed scombs zero sc h = false
chain_hashed scombs (suc fuel) none h = true
chain_hashed scombs (suc fuel) (some sc) h = elim (get_elem? scombs sc) [
  | none ↦ false
  | some s ↦ let rest = chain_hashed scombs fuel s.hashnext h in hash s.name == h && rest
]

-- Is the entry `wanted` in the chain from `sc` on?
unfoldable pub in_chain : List Scomb → ℕ → Option ℕ → ℕ → Bool
in_chain scombs zero sc wanted = false
in_chain scombs (suc fuel) none wanted = false
in_chain scombs (suc fuel) (some sc) wanted = elim (get_elem? scombs sc) [
  | none ↦ false
  | some s ↦ let rest = in_chain scombs fuel s.hashnext wanted in sc == wanted || rest
]

-- The first loop of `schash_check`, over the first `n` chains, and the second, over the first `n`
-- supercombinators.
unfoldable pub chains_hashed : Scombs → ℕ → Bool
chains_hashed src zero = true
chains_hashed src (suc h) =
    chains_hashed src h && chain_hashed src.scombs (suc (length src.scombs)) (src.schash h) h

unfoldable pub all_in_chain : Scombs → ℕ → Bool
all_in_chain src zero = true
all_in_chain src (suc scno) = all_in_chain src scno && elim (get_elem? src.scombs scno) [
  | none ↦ false
  | some sc ↦ in_chain src.scombs (suc (length src.scombs)) (src.schash (hash sc.name)) scno
]

unfoldable pub schash_check : Scombs → Bool
schash_check src = chains_hashed src global_hash_size && all_in_chain src (length src.scombs)
