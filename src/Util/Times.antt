-- ===== src/Util/Times.antt =====
-- Times and pieces of texts. The seconds of a time are not negative here, nor are the milliseconds
-- that are added.
use nreduce.Base.{
  length-take, length-drop, ℕ, zero, suc, [], ◌∷◌, ◌++◌, ap, ◌∙◌, ◌+◌, ◌-◌, ◌*◌, ◌/◌, ◌%◌, ◌≤◌, ◌<◌,
  true, ◌≡◌, refl, List, length, take, drop, Option, some, ◌>>◌, assert, leb, if◌then◌else◌,
  Bool-cases, inl, inr, arith,
}

-- `struct timeval`
pub record Timeval : Type 0 where
  pub tv_sec : ℕ
  pub tv_usec : ℕ

unfoldable pub timeval_addms : Timeval → ℕ → Timeval
timeval_addms t ms =
    let sec = t.tv_sec + ms / 1000 in
    let usec = t.tv_usec + ms % 1000 * 1000 in
    if leb 1000000 usec
    then record { tv_sec = sec + 1; tv_usec = usec - 1000000 }
    else record { tv_sec = sec; tv_usec = usec }

abbrev pub micros : Timeval → ℕ
micros t = t.tv_sec * 1000000 + t.tv_usec

-- Adding milliseconds to a time with less than a million microseconds gives such a time, later by
-- as much.
pub timeval_addms_lem :
    (t : Timeval) (ms : ℕ)
    → t.tv_usec < 1000000
    → (micros (timeval_addms t ms) ≡ micros t + ms * 1000)
      × ((timeval_addms t ms).tv_usec < 1000000)
unfolding timeval_addms
timeval_addms_lem t ms h = elim (Bool-cases (leb 1000000 (t.tv_usec + ms % 1000 * 1000))) [
  | inl carry ↦ rw carry (ground arith, ground arith)
  | inr no_carry ↦ rw no_carry (ground arith, ground arith)
]

-- `none` is a failed assertion.
unfoldable pub substring : List ℕ → ℕ → ℕ → Option (List ℕ)
substring str begin end =
    let len = length str in
    assert (leb begin len)
    >> (assert (leb end len)
        >> (assert (leb begin end) >> some (take (end - begin) (drop begin str))))

-- The first `len` bytes of the data.
unfoldable pub mkstring : List ℕ → ℕ → List ℕ
mkstring bytes len = take len bytes

take-drop : (n : ℕ) (xs : List ℕ) → xs ≡ take n xs ++ drop n xs
take-drop zero xs = refl
take-drop (suc n) [] = refl
take-drop (suc n) (x ∷ xs) = ap (λ (l : List ℕ). x ∷ l) (take-drop n xs)

-- A piece of a text is taken exactly if it lies in the text; it is then the part of the text from
-- the one position to the other.
pub substring_lem :
    (str : List ℕ) (begin end : ℕ)
    → (begin ≤ end
        → end ≤ length str
        → (before : List ℕ) × (sub : List ℕ) × (after : List ℕ) × (substring str begin end
            ≡ some sub)
          × (str ≡ before ++ (sub ++ after))
          × (length before ≡ begin)
          × (length sub ≡ end - begin))
      × ((sub : List ℕ) → substring str begin end ≡ some sub → (begin ≤ end) × (end ≤ length str))
unfolding substring
substring_lem str begin end = (
  λ ordered inside.
      let a : leb begin (length str) ≡ true = ground arith in
      let b : leb end (length str) ≡ true = ground arith in
      let c : leb begin end ≡ true = ground arith in
      (
        take begin str,
        take (end - begin) (drop begin str),
        drop (end - begin) (drop begin str),
        rw (a, b, c) refl,
        take-drop begin str
            ∙ ap (λ (l : List ℕ). take begin str ++ l) (take-drop (end - begin) (drop begin str)),
        length-take begin str (omega arith),
        length-take (end - begin) (drop begin str) (omega (arith, length-drop begin str)),
      ),
  λ sub e. ground arith,
)
