-- ===== src/Util/Arrays.antt =====
-- Arrays that grow (`array_*` of util.c). A size is an `int` there, of 31 bits and a sign; a sum or a
-- doubling that overflows has no result.
use nreduce.Base.{
  length-drop, ℕ, zero, suc, ◌+◌, ◌-◌, ◌*◌, ◌/◌, ◌≤◌, ◌<◌, Bool, true, false, ◌&&◌, ◌≡◌, refl, sym,
  ap, subst, ◌∙◌, List, [], ◌∷◌, ◌++◌, length, length-append, drop, Option, none, some, ◌>>=◌, ◌>>◌,
  assert, ◌==◌, ltb, leb, if◌then◌else◌, Bool-cases, inl, inr, ◌⊎◌, str_eq, arith,
}

-- `struct array`; `nbytes` is the length of the data in use, and `alloc` the room for it.
pub record Array : Type 0 where
  pub elemsize : ℕ
  pub alloc : ℕ
  pub nbytes : ℕ
  pub content : List ℕ

unfoldable pub array_new : ℕ → ℕ → Array
array_new elemsize initroom = record {
  elemsize = elemsize;
  alloc = if ltb 0 initroom then elemsize * initroom else 1024;
  nbytes = 0;
  content = [];
}

unfoldable pub array_equals : Array → Array → Bool
array_equals a b = a.elemsize == b.elemsize && (a.nbytes == b.nbytes && str_eq a.content b.content)

-- The first number that is no `int`.
abbrev pub int_limit : ℕ
int_limit = 2147483648

-- The loop that doubles the room. `none` is a doubling that overflows, after which the loop does not
-- end, or the end of the fuel.
unfoldable pub double_until : ℕ → ℕ → ℕ → Option ℕ
double_until zero needed alloc = none
double_until (suc fuel) needed alloc =
    let rest = double_until fuel needed (alloc * 2) in
    if ltb alloc needed then (if ltb (alloc * 2) int_limit then rest else none) else some alloc

unfoldable pub array_mkroom : Array → ℕ → Option Array
array_mkroom arr size = do
  assert (ltb (arr.nbytes + size) int_limit)
  alloc ← double_until (suc (arr.nbytes + size)) (arr.nbytes + size) arr.alloc
  some (record arr { alloc = alloc })

unfoldable pub array_append : Array → List ℕ → Option Array
array_append arr bytes = array_mkroom arr (length bytes) >>= λ roomy.
    some (record roomy { content = roomy.content ++ bytes; nbytes = roomy.nbytes + length bytes })

unfoldable pub array_remove_data : Array → ℕ → Option Array
array_remove_data arr nbytes = do
  assert (leb nbytes arr.nbytes)
  some (record arr { content = drop nbytes arr.content; nbytes = arr.nbytes - nbytes })

unfoldable pub array_remove_items : Array → ℕ → Option Array
array_remove_items arr count = array_remove_data arr (count * arr.elemsize)

unfoldable pub array_count : Array → ℕ
array_count arr = arr.nbytes / arr.elemsize

-- The data fit the room, and the room is not empty.
pub record IsSound (arr : Array) : Type 0 where
  pub used : arr.nbytes ≡ length arr.content
  pub fits : arr.nbytes ≤ arr.alloc
  pub roomy : 0 < arr.alloc

-- Doubling ends, and goes no further than it must.
record Doubled (needed alloc result : ℕ) : Type 0 where
  enough : needed ≤ result
  grown : alloc ≤ result
  bounded : (result ≡ alloc) ⊎ (result < 2 * needed)

double_until-Doubled :
    (fuel needed alloc : ℕ)
    → 0 < alloc
    → needed < fuel + alloc
    → 0 < fuel
    → needed + needed ≤ int_limit
    → (result : ℕ) × (double_until fuel needed alloc ≡ some result) × Doubled needed alloc result
unfolding double_until
double_until-Doubled zero needed alloc p f g u = absurd (omega arith)
double_until-Doubled (suc fuel) needed alloc p f g u = elim (Bool-cases (ltb alloc needed)) [
  | inl short ↦
      let (result, e, d) =
        double_until-Doubled fuel needed (alloc * 2) (omega arith) (ground arith) (ground arith)
          u in
      let within : ltb (alloc * 2) int_limit ≡ true = ground arith in
      (
        result,
        rw (short, within) e,
        record {
          enough = d.enough;
          grown = omega (arith, d.grown);
          bounded = elim d.bounded [ inl same ↦ inr (ground arith) | inr less ↦ inr less ];
        },
      )
  | inr long ↦ (
    alloc,
    rw long refl,
    record { enough = ground arith; grown = omega arith; bounded = inl refl },
  )
]

-- What an append leaves: the bytes stand behind the others, and the room is the old one or less
-- than twice what is used.
pub record Appended (arr : Array) (bytes : List ℕ) (arr' : Array) : Type 0 where
  pub sound : IsSound arr'
  pub written : arr'.content ≡ arr.content ++ bytes
  pub bounded : (arr'.alloc ≡ arr.alloc) ⊎ (arr'.alloc < 2 * arr'.nbytes)
  pub same_elements : arr'.elemsize ≡ arr.elemsize

-- The largest size up to which a doubling stays an `int`.
abbrev pub max_size : ℕ
max_size = 1073741824

pub array_append-some :
    (arr : Array) (bytes : List ℕ)
    → IsSound arr
    → arr.nbytes + length bytes ≤ max_size
    → (arr' : Array) × (array_append arr bytes ≡ some arr') × Appended arr bytes arr'
unfolding array_append array_mkroom
array_append-some arr bytes s u =
    let needed = arr.nbytes + length bytes in
    let (alloc, e, d) =
      double_until-Doubled (suc needed) needed arr.alloc s.roomy (omega (arith, s.roomy))
        (omega arith) (omega arith) in
    let within : ltb needed int_limit ≡ true = ground arith in
    (
      record arr {
        alloc = alloc;
        content = arr.content ++ bytes;
        nbytes = arr.nbytes + length bytes;
      },
      rw (within, e) refl,
      record {
        sound = record {
          used = omega (arith, s.used, length-append arr.content bytes);
          fits = d.enough;
          roomy = omega (arith, s.roomy, d.grown);
        };
        written = refl;
        bounded = d.bounded;
        same_elements = refl;
      },
    )

array_append-none :
    (arr : Array) (bytes : List ℕ)
    → int_limit ≤ arr.nbytes + length bytes
    → array_append arr bytes ≡ none
unfolding array_append array_mkroom
array_append-none arr bytes u =
    let over : ltb (arr.nbytes + length bytes) int_limit ≡ false = ground arith in rw over refl

-- Up to 2 ^ 30 bytes in use, appending ends without an overflow, in a sound array, with the bytes
-- behind the others, and doubles the room no more often than it must. From 2 ^ 31 on it overflows.
pub array_append-Appended :
    (arr : Array) (bytes : List ℕ)
    → IsSound arr
    → (arr.nbytes + length bytes ≤ max_size
        → (arr' : Array) × (array_append arr bytes ≡ some arr') × Appended arr bytes arr')
      × (int_limit ≤ arr.nbytes + length bytes → array_append arr bytes ≡ none)
array_append-Appended arr bytes s = (array_append-some arr bytes s, array_append-none arr bytes)

drop-append : (xs ys : List ℕ) → drop (length xs) (xs ++ ys) ≡ ys
drop-append [] ys = refl
drop-append (x ∷ xs) ys = drop-append xs ys

pub array_remove_data-IsSound :
    (arr arr' : Array) (n : ℕ)
    → IsSound arr
    → array_remove_data arr n ≡ some arr'
    → IsSound arr' × (arr'.content ≡ drop n arr.content) × (n ≤ arr.nbytes)
unfolding array_remove_data
array_remove_data-IsSound arr arr' n s e = elim (Bool-cases (leb n arr.nbytes)) [
  | inl within ↦
      let out : some (record arr { content = drop n arr.content; nbytes = arr.nbytes - n })
          ≡ some arr' =
        rw (within, array_remove_data) at e in
      let same : record arr { content = drop n arr.content; nbytes = arr.nbytes - n } ≡ arr' = cc in
      let le : n ≤ arr.nbytes = ground arith in
      let sound : IsSound (record arr { content = drop n arr.content; nbytes = arr.nbytes - n }) =
        record {
          used = omega (arith, s.used, length-drop n arr.content (omega (arith, s.used)));
          fits = omega (arith, s.fits);
          roomy = s.roomy;
        } in
      (subst IsSound same sound, sym (ap (λ (a : Array). a.content) same), le)
  | inr beyond ↦ cc (rw (beyond, array_remove_data) at e)
]

array_remove_data-within :
    (a : Array) (n : ℕ) → n ≤ a.nbytes → (a' : Array) × (array_remove_data a n ≡ some a')
unfolding array_remove_data
array_remove_data-within a n h =
    let within : leb n a.nbytes ≡ true = ground arith in
    (record a { content = drop n a.content; nbytes = a.nbytes - n }, rw within refl)

array_append-nbytes :
    (arr full : Array) (bytes : List ℕ)
    → IsSound arr
    → Appended arr bytes full
    → arr.nbytes ≤ full.nbytes
array_append-nbytes arr full bytes s a =
    let grown : length full.content ≡ length arr.content + length bytes =
      ap length a.written ∙ length-append arr.content bytes in
    omega (arith, s.used, a.sound.used)

-- Up to 2 ^ 30 bytes in use, appending to a sound array and then removing as many bytes as it had
-- before gives exactly the bytes that were appended, in a sound array.
pub array_remove_data-array_append :
    (arr : Array) (bytes : List ℕ)
    → IsSound arr
    → arr.nbytes + length bytes ≤ max_size
    → (arr' : Array) × ((array_append arr bytes >>= λ full. array_remove_data full arr.nbytes)
        ≡ some arr')
      × (arr'.content ≡ bytes)
      × IsSound arr'
array_remove_data-array_append arr bytes s u =
    let (full, e, a) = array_append-some arr bytes s u in
    let (arr', removed) =
      array_remove_data-within full arr.nbytes (array_append-nbytes arr full bytes s a) in
    let (sound, content, le) = array_remove_data-IsSound full arr' arr.nbytes a.sound removed in
    (
      arr',
      ap (λ o. o >>= λ full. array_remove_data full arr.nbytes) e ∙ removed,
      content
          ∙ ap (drop arr.nbytes) a.written
          ∙ ap (λ n. drop n (arr.content ++ bytes)) s.used
          ∙ drop-append arr.content bytes,
      sound,
    )
