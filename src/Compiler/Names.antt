-- ===== src/Compiler/Names.antt =====
-- The names that the compiler makes up: GENVAR_PREFIX and a number in decimal (`next_var` of
-- renaming.c), and how the parser keeps the program's own names apart (`make_varname` of source.c).
use nreduce.Base.{
  ℕ, zero, suc, ◌+◌, ◌*◌, ◌/◌, ◌%◌, ◌-◌, ◌<◌, Bool, true, false, ◌&&◌, ◌||◌, ◌≡◌, ◌≢◌, refl, sym,
  ap, ◌∙◌, List, [], ◌∷◌, ◌++◌, arith, codes, ltb, leb, ◌==◌, if◌then◌else◌, Bool-cases, inl, inr,
  drop,
}
use nreduce.Compiler.Syntax.{Name}

-- The digits of a number, most significant first, in at most `fuel` rounds.
unfoldable pub decimal_from : ℕ → ℕ → List ℕ
decimal_from zero n = []
decimal_from (suc fuel) n =
    let rest = decimal_from fuel (n / 10) in (if ltb n 10 then [] else rest) ++ (b'0' + n % 10) ∷ []

-- What `sprintf` prints for "%d" at a number that is not negative.
unfoldable pub decimal : ℕ → List ℕ
decimal n = decimal_from (suc n) n

-- GENVAR_PREFIX
abbrev pub genvar_prefix : Name
genvar_prefix = codes "_v"

unfoldable pub genvar : ℕ → Name
genvar k = genvar_prefix ++ decimal k

-- Is the first text the start of the second? (`!strncmp(want,prefix,strlen(prefix))`)
unfoldable pub has_prefix : Name → Name → Bool
has_prefix [] s = true
has_prefix (c ∷ cs) [] = false
has_prefix (c ∷ cs) (d ∷ ds) = c == d && has_prefix cs ds

unfoldable pub make_varname : Name → Name
make_varname want = if has_prefix genvar_prefix want then want ++ codes "_" else want

abbrev pub is_digit : ℕ → Bool
is_digit c = leb b'0' c && leb c b'9'

-- `atoi` on a text with no blanks and no sign in front: the digits at its start.
unfoldable pub atoi_onto : ℕ → List ℕ → ℕ
atoi_onto acc [] = acc
atoi_onto acc (d ∷ ds) =
    let rest = atoi_onto (10 * acc + (d - b'0')) ds in if is_digit d then rest else acc

abbrev pub atoi : List ℕ → ℕ
atoi s = atoi_onto 0 s

abbrev pub starts_signed : List ℕ → Bool
starts_signed [] = false
starts_signed (c ∷ cs) = c == b'-' || c == b'+'

-- The number that a text of digits stands for.
value_onto : ℕ → List ℕ → ℕ
value_onto acc [] = acc
value_onto acc (d ∷ ds) = value_onto (10 * acc + (d - b'0')) ds

value_onto-append :
    (acc : ℕ) (xs : List ℕ) (d : ℕ)
    → value_onto acc (xs ++ d ∷ []) ≡ 10 * value_onto acc xs + (d - b'0')
unfolding value_onto
value_onto-append acc [] d = refl
value_onto-append acc (x ∷ xs) d = value_onto-append (10 * acc + (x - b'0')) xs d

value-decimal_from : (fuel n : ℕ) → n < fuel → value_onto 0 (decimal_from fuel n) ≡ n
unfolding decimal_from
value-decimal_from zero n h = absurd (omega arith)
value-decimal_from (suc fuel) n h = elim (Bool-cases (ltb n 10)) [
  | inl small ↦
      rw small (rw (value_onto-append 0 [] (b'0' + n % 10)) (unfold value_onto in ground arith))
  | inr large ↦
      rw (large, value_onto-append 0 (decimal_from fuel (n / 10)) (b'0' + n % 10))
        (ground (arith, value-decimal_from fuel (n / 10)))
]

abbrev AllDigits : List ℕ → Type 0
AllDigits [] = Unit
AllDigits (d ∷ ds) = (is_digit d ≡ true) × AllDigits ds

append-AllDigits :
    (xs : List ℕ) (d : ℕ) → AllDigits xs → is_digit d ≡ true → AllDigits (xs ++ d ∷ [])
append-AllDigits [] d h e = (e, tt)
append-AllDigits (x ∷ xs) d h e = (h.0, append-AllDigits xs d h.1 e)

decimal_from-AllDigits : (fuel n : ℕ) → AllDigits (decimal_from fuel n)
unfolding decimal_from
decimal_from-AllDigits zero n = tt
decimal_from-AllDigits (suc fuel) n = elim (Bool-cases (ltb n 10)) [
  | inl small ↦ rw small (append-AllDigits [] (b'0' + n % 10) tt (ground arith))
  | inr large ↦ rw large (
      append-AllDigits (decimal_from fuel (n / 10)) (b'0' + n % 10)
        (decimal_from-AllDigits fuel (n / 10)) (ground arith))
]

atoi_onto-eq-value : (acc : ℕ) (xs : List ℕ) → AllDigits xs → atoi_onto acc xs ≡ value_onto acc xs
unfolding atoi_onto value_onto
atoi_onto-eq-value acc [] h = refl
atoi_onto-eq-value acc (d ∷ ds) h = rw (h.0) (atoi_onto-eq-value (10 * acc + (d - b'0')) ds h.1)

-- The number in a generated name is read back.
pub atoi-genvar : (k : ℕ) → atoi (drop 2 (genvar k)) ≡ k
unfolding genvar decimal
atoi-genvar k =
    atoi_onto-eq-value 0 (decimal_from (suc k) k) (decimal_from-AllDigits (suc k) k)
    ∙ value-decimal_from (suc k) k (omega arith)

unsigned_digits : (xs : List ℕ) → AllDigits xs → starts_signed xs ≡ false
unsigned_digits [] h = refl
unsigned_digits (x ∷ xs) h = ground arith

pub unsigned-genvar : (k : ℕ) → starts_signed (drop 2 (genvar k)) ≡ false
unfolding genvar decimal
unsigned-genvar k = unsigned_digits (decimal_from (suc k) k) (decimal_from-AllDigits (suc k) k)

-- Different numbers are printed differently.
pub decimal-injective : (a b : ℕ) → decimal a ≡ decimal b → a ≡ b
unfolding decimal
decimal-injective a b e =
    sym (value-decimal_from (suc a) a (omega arith))
    ∙ ap (value_onto 0) e
    ∙ value-decimal_from (suc b) b (omega arith)

-- Different counts give different names.
pub genvar-injective : (a b : ℕ) → genvar a ≡ genvar b → a ≡ b
unfolding genvar
genvar-injective a b e = decimal-injective a b (ap (drop 2) e)

last_or : ℕ → List ℕ → ℕ
last_or x [] = x
last_or x (y ∷ ys) = last_or y ys

last_or-append : (x : ℕ) (ys : List ℕ) (d : ℕ) → last_or x (ys ++ d ∷ []) ≡ d
unfolding last_or
last_or-append x [] d = refl
last_or-append x (y ∷ ys) d = last_or-append y ys d

last-genvar : (k : ℕ) → (d : ℕ) × (last_or 0 (genvar k) ≡ b'0' + d) × (d < 10)
unfolding genvar decimal decimal_from last_or
last-genvar k = (
  k % 10,
  last_or-append b'v' (if ltb k 10 then [] else decimal_from k (k / 10)) (b'0' + k % 10),
  omega arith,
)

pub has_prefix-genvar : (k : ℕ) → has_prefix genvar_prefix (genvar k) ≡ true
unfolding has_prefix genvar
has_prefix-genvar k = refl

-- The parser never lets a name of the program pass that the compiler could make up: a name that
-- begins like those gets a final underscore, which no generated name has.
pub make_varname-ne-genvar : (want : Name) (k : ℕ) → make_varname want ≢ genvar k
unfolding make_varname
make_varname-ne-genvar want k e = elim (Bool-cases (has_prefix genvar_prefix want)) [
  | inl like ↦
      let (d, ends, small) = last-genvar k in
      let marked : want ++ codes "_" ≡ genvar k = rw (like, make_varname) at e in
      let bar : b'_' ≡ b'0' + d = sym (last_or-append 0 want b'_') ∙ ap (last_or 0) marked ∙ ends in
      absurd (omega arith)
  | inr other ↦
      let same : want ≡ genvar k = rw (other, make_varname) at e in cc (has_prefix-genvar k)
]

has_prefix-append : (p s t : Name) → has_prefix p s ≡ true → has_prefix p (s ++ t) ≡ true
unfolding has_prefix
has_prefix-append [] s t h = refl
has_prefix-append (c ∷ cs) [] t h = cc
has_prefix-append (c ∷ cs) (d ∷ ds) t h = ground (arith, has_prefix-append cs ds t)

but_last : List ℕ → List ℕ
but_last [] = []
but_last (x ∷ []) = []
but_last (x ∷ y ∷ ys) = x ∷ but_last (y ∷ ys)

but_last-append : (xs : List ℕ) (d : ℕ) → but_last (xs ++ d ∷ []) ≡ xs
unfolding but_last
but_last-append [] d = refl
but_last-append (x ∷ []) d = refl
but_last-append (x ∷ y ∷ ys) d = ap (λ l. x ∷ l) (but_last-append (y ∷ ys) d)

-- Names of the program that differ still differ after the parser has kept them apart from the
-- generated ones.
pub make_varname-injective : (a b : Name) → make_varname a ≡ make_varname b → a ≡ b
unfolding make_varname
make_varname-injective a b e = elim (Bool-cases (has_prefix genvar_prefix a)) [
  | inl pa ↦ elim (Bool-cases (has_prefix genvar_prefix b)) [
    | inl pb ↦
        let marked : a ++ codes "_" ≡ b ++ codes "_" = rw (pa, pb, make_varname) at e in
        sym (but_last-append a b'_') ∙ ap but_last marked ∙ but_last-append b b'_'
    | inr pb ↦
        let marked : a ++ codes "_" ≡ b = rw (pa, pb, make_varname) at e in
        cc (has_prefix-append genvar_prefix a (codes "_") pa)
  ]
  | inr pa ↦ elim (Bool-cases (has_prefix genvar_prefix b)) [
    | inl pb ↦
        let marked : a ≡ b ++ codes "_" = rw (pa, pb, make_varname) at e in
        cc (has_prefix-append genvar_prefix b (codes "_") pb)
    | inr pb ↦ rw (pa, pb, make_varname) at e
  ]
]

genvar_12 : genvar 12 ≡ codes "_v12"
unfolding genvar decimal decimal_from
genvar_12 = refl
