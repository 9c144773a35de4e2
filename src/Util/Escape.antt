-- ===== src/Util/Escape.antt =====
-- `escape` and `unescape`: texts with their control characters and quotes written out.
use nreduce.Base.{
  ℕ, ◌+◌, ◌*◌, ◌≤◌, false, ◌||◌, ◌≡◌, refl, ap, ◌∙◌, List, [], ◌∷◌, ◌++◌, length, length-append,
  ◌==◌, if◌then◌else◌, arith,
}

-- The byte that stands behind a backslash for another one: none for a byte that is written as it
-- is.
abbrev pub letter_of : ℕ → ℕ
letter_of c =
    if c == 8
    then b'b'
    else if c == 9
    then b't'
    else if c == 10
    then b'n'
    else if c == 12
    then b'f'
    else if c == 13
    then b'r'
    else c

-- The switch of `escape`.
abbrev pub escape_char : ℕ → List ℕ
escape_char c =
    if (c == 8 || (c == 9 || (c == 10 || (c == 12 || c == 13))))
      || (c == 34 || (c == 39 || c == 92))
    then 92 ∷ letter_of c ∷ []
    else c ∷ []

unfoldable pub escape : List ℕ → List ℕ
escape [] = []
escape (c ∷ cs) = escape_char c ++ escape cs

-- The switch of `unescape`: a backslash in front of any other byte takes that byte away.
abbrev pub unescape_char : ℕ → List ℕ
unescape_char d =
    if d == b'b'
    then 8 ∷ []
    else if d == b't'
    then 9 ∷ []
    else if d == b'n'
    then 10 ∷ []
    else if d == b'f'
    then 12 ∷ []
    else if d == b'r'
    then 13 ∷ []
    else if d == 34
    then 34 ∷ []
    else if d == 39
    then 39 ∷ []
    else if d == 92
    then 92 ∷ []
    else []

-- A backslash at the end is followed by the final zero, and gives nothing.
unfoldable pub unescape : List ℕ → List ℕ
unescape [] = []
unescape (c ∷ []) = if c == 92 then [] else c ∷ []
unescape (c ∷ d ∷ cs) =
    let escaped = unescape cs in
    let plain = unescape (d ∷ cs) in if c == 92 then unescape_char d ++ escaped else c ∷ plain

unescape-plain : (c : ℕ) (cs : List ℕ) → (c == 92) ≡ false → unescape (c ∷ cs) ≡ c ∷ unescape cs
unfolding unescape
unescape-plain c [] h = rw h refl
unescape-plain c (d ∷ cs) h = rw h refl

unescape-pair : (d : ℕ) (cs : List ℕ) → unescape (92 ∷ d ∷ cs) ≡ unescape_char d ++ unescape cs
unfolding unescape
unescape-pair d cs = refl

unescape-escape_char : (c : ℕ) (cs : List ℕ) → unescape (escape_char c ++ cs) ≡ c ∷ unescape cs
unescape-escape_char c cs = ground (arith, unescape-plain c cs, unescape-pair (letter_of c) cs)

-- Unescaping an escaped text gives the text back.
pub unescape-escape : (cs : List ℕ) → unescape (escape cs) ≡ cs
unfolding escape
unescape-escape [] = (unfold unescape in refl)
unescape-escape (c ∷ cs) = unescape-escape_char c (escape cs) ∙ ap (λ l. c ∷ l) (unescape-escape cs)

length-escape_char : (c : ℕ) → length (escape_char c) ≤ 2
length-escape_char c = ground arith

length-escape : (cs : List ℕ) → length (escape cs) ≤ 2 * length cs
unfolding escape
length-escape [] = omega arith
length-escape (c ∷ cs) =
    omega (arith, length-escape cs, length-escape_char c, length-append (escape_char c) (escape cs))

length-unescape_char : (c : ℕ) → length (unescape_char c) ≤ 1
length-unescape_char c = ground arith

length-unescape : (cs : List ℕ) → length (unescape cs) ≤ length cs
unfolding unescape
length-unescape [] = omega arith
length-unescape (c ∷ []) = ground arith
length-unescape (c ∷ d ∷ cs) = ground (
  arith,
  length-unescape cs,
  length-unescape (d ∷ cs),
  length-unescape_char d,
  length-append (unescape_char d) (unescape cs),
)

-- Both results fit the buffers: `escape` allocates twice the length and one byte, `unescape` the
-- length and one byte, each with the final zero.
pub escape_fits :
    (cs : List ℕ)
    → (length (escape cs) + 1 ≤ length cs * 2 + 1) × (length (unescape cs) + 1 ≤ length cs + 1)
escape_fits cs = (omega (arith, length-escape cs), omega (arith, length-unescape cs))
