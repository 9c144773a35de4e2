-- ===== src/Util/Lists.antt =====
-- Linked lists (`list_*`). A pointer to data is a number, and 0 is NULL.
use nreduce.Base.{
  ℕ, zero, suc, ◌+◌, ◌<◌, Bool, true, false, not, ◌≡◌, refl, ap, List, [], ◌∷◌, Option, none, some,
  ◌>>=◌, ◌>>◌, assert, ◌==◌, if◌then◌else◌, Bool-cases, inl, inr, str_eq, arith,
}

module _ {A : Type 0} where
  -- `list_new`, `list_push`
  abbrev pub list_push : List A → A → List A
  list_push l item = item ∷ l

  unfoldable pub list_append : List A → A → List A
  list_append [] item = item ∷ []
  list_append (x ∷ xs) item = x ∷ list_append xs item

  -- The list that is left, and what was taken; `none` is NULL.
  unfoldable pub list_pop : List A → List A × Option A
  list_pop [] = ([], none)
  list_pop (x ∷ xs) = (xs, some x)

  unfoldable pub list_count : List A → ℕ
  list_count [] = 0
  list_count (x ∷ xs) = suc (list_count xs)

  -- `none` is a failed assertion, or a read through NULL when the list is empty.
  unfoldable pub list_item : List A → ℕ → Option A
  list_item [] item = none
  list_item (x ∷ xs) zero = some x
  list_item (x ∷ xs) (suc item) = list_item xs item

  -- With a function to copy the items.
  unfoldable pub list_copy : List A → (A → A) → List A
  list_copy [] copy = []
  list_copy (x ∷ xs) copy = copy x ∷ list_copy xs copy

-- An item that is NULL equals NULL alone.
abbrev pub same_string : Option (List ℕ) → Option (List ℕ) → Bool
same_string none none = true
same_string none (some b) = false
same_string (some a) none = false
same_string (some a) (some b) = str_eq a b

unfoldable pub list_contains_string : List (Option (List ℕ)) → Option (List ℕ) → Bool
list_contains_string [] str = false
list_contains_string (x ∷ xs) str = if same_string str x then true else list_contains_string xs str

unfoldable pub list_contains_ptr : List ℕ → ℕ → Bool
list_contains_ptr [] item = false
list_contains_ptr (x ∷ xs) item = if x == item then true else list_contains_ptr xs item

-- The loop of `list_remove_ptr`; a list without the item would be read past its end.
unfoldable pub remove_first : List ℕ → ℕ → Option (List ℕ)
remove_first [] item = none
remove_first (x ∷ xs) item =
    let rest = remove_first xs item in
    if not (x == item) then (rest >>= λ r. some (x ∷ r)) else some xs

unfoldable pub list_remove_ptr : List ℕ → ℕ → Option (List ℕ)
list_remove_ptr l item = do assert (list_contains_ptr l item); remove_first l item

-- How often an item stands in a list.
abbrev pub occurrences : List ℕ → ℕ → ℕ
occurrences [] item = 0
occurrences (x ∷ xs) item = (if x == item then 1 else 0) + occurrences xs item

pub list_item-list_append :
    {A : Type 0} (l : List A) (item : A) → list_item (list_append l item) (list_count l) ≡ some item
unfolding list_item list_append list_count
list_item-list_append [] item = refl
list_item-list_append (x ∷ xs) item = list_item-list_append xs item

list_count-list_append :
    {A : Type 0} (l : List A) (item : A) → list_count (list_append l item) ≡ suc (list_count l)
unfolding list_append list_count
list_count-list_append [] item = refl
list_count-list_append (x ∷ xs) item = ap suc (list_count-list_append xs item)

list_item-older :
    {A : Type 0} (l : List A) (item : A) (i : ℕ)
    → i < list_count l
    → list_item (list_append l item) i ≡ list_item l i
unfolding list_item list_append list_count
list_item-older [] item i h = absurd (omega arith)
list_item-older (x ∷ xs) item zero h = refl
list_item-older (x ∷ xs) item (suc i) h = list_item-older xs item i (omega arith)

-- An item that is appended stands behind the others: it is found at the old count, the items before
-- it stay where they were, and the count grows by one.
pub list_append_lem :
    {A : Type 0} (l : List A) (item : A)
    → (list_item (list_append l item) (list_count l) ≡ some item)
      × ((i : ℕ) → i < list_count l → list_item (list_append l item) i ≡ list_item l i)
      × (list_count (list_append l item) ≡ suc (list_count l))
list_append_lem l item =
    (list_item-list_append l item, list_item-older l item, list_count-list_append l item)

-- What a removal leaves.
pub record IsRemoved (l : List ℕ) (item : ℕ) (l' : List ℕ) : Type 0 where
  pub once : suc (occurrences l' item) ≡ occurrences l item
  pub others : (other : ℕ) → (item == other) ≡ false → occurrences l' other ≡ occurrences l other
  pub count : suc (list_count l') ≡ list_count l

remove_first-IsRemoved :
    (l : List ℕ) (item : ℕ)
    → list_contains_ptr l item ≡ true
    → (l' : List ℕ) × (remove_first l item ≡ some l') × IsRemoved l item l'
unfolding remove_first list_contains_ptr list_count
remove_first-IsRemoved [] item h = cc
remove_first-IsRemoved (x ∷ xs) item h = elim (Bool-cases (x == item)) [
  | inl here ↦ (
    xs,
    rw here refl,
    record { once = ground arith; others = λ other ne. ground arith; count = refl },
  )
  | inr later ↦
      let (l', e, r) = remove_first-IsRemoved xs item (ground arith) in
      (
        x ∷ l',
        rw (later, e) refl,
        record {
          once = ground (arith, r.once);
          others = λ other ne. omega (arith, r.others other ne);
          count = ap suc r.count;
        },
      )
]

-- Removing an item that a list contains succeeds, and takes away one occurrence of it and nothing
-- else.
pub list_remove_ptr-IsRemoved :
    (l : List ℕ) (item : ℕ)
    → list_contains_ptr l item ≡ true
    → (l' : List ℕ) × (list_remove_ptr l item ≡ some l') × IsRemoved l item l'
unfolding list_remove_ptr
list_remove_ptr-IsRemoved l item h =
    let (l', e, r) = remove_first-IsRemoved l item h in (l', rw h e, r)
