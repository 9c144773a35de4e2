-- ===== src/Util/Words.antt =====
-- `parse_cmdline`: the words of a line.
use nreduce.Base.{
  ℕ, suc, Bool, true, false, not, ◌&&◌, ◌||◌, ◌≡◌, refl, sym, ap, ◌∙◌, Bool-cases, inl, inr, List,
  [], ◌∷◌, ◌++◌, length, ◌==◌, leb, if◌then◌else◌, arith,
}
use mathlib.Core.List.{append_assoc, append-nil}

-- `isspace` in the C locale.
abbrev pub isspace : ℕ → Bool
isspace c = c == 32 || (leb 9 c && leb c 13)

-- The first loop. The flag says that there is a byte before the present one and that it is no
-- space.
unfoldable pub count_words : Bool → List ℕ → ℕ
count_words in_word [] = if in_word then 1 else 0
count_words in_word (c ∷ cs) =
    let rest = count_words (not (isspace c)) cs in if isspace c && in_word then suc rest else rest

-- The second loop. The text is what stands between `start` and the present byte.
unfoldable pub collect_words : Bool → List ℕ → List ℕ → List (List ℕ)
collect_words in_word word [] = if in_word then word ∷ [] else []
collect_words in_word word (c ∷ cs) =
    let rest = collect_words (not (isspace c)) (if isspace c then [] else word ++ c ∷ []) cs in
    if isspace c && in_word then word ∷ rest else rest

-- `argc` and `argv`.
pub record Cmdline : Type 0 where
  pub argc : ℕ
  pub argv : List (List ℕ)

unfoldable pub parse_cmdline : List ℕ → Cmdline
parse_cmdline line = record { argc = count_words false line; argv = collect_words false [] line }

count-collect :
    (in_word : Bool) (word line : List ℕ)
    → length (collect_words in_word word line) ≡ count_words in_word line
unfolding collect_words count_words
count-collect in_word word [] = ground arith
count-collect in_word word (c ∷ cs) =
    let ih = count-collect (not (isspace c)) (if isspace c then [] else word ++ c ∷ []) cs in
    ground arith

abbrev pub no_spaces : List ℕ → Bool
no_spaces [] = true
no_spaces (c ∷ cs) = not (isspace c) && no_spaces cs

abbrev pub is_empty : List ℕ → Bool
is_empty [] = true
is_empty (c ∷ cs) = false

-- Every word has a byte, and none that is a space.
abbrev pub all_words : List (List ℕ) → Bool
all_words [] = true
all_words (w ∷ ws) = (not (is_empty w) && no_spaces w) && all_words ws

abbrev pub concat : List (List ℕ) → List ℕ
concat [] = []
concat (w ∷ ws) = w ++ concat ws

-- The bytes of a line that are no spaces.
abbrev pub letters : List ℕ → List ℕ
letters [] = []
letters (c ∷ cs) = if isspace c then letters cs else c ∷ letters cs

no_spaces-snoc : (w : List ℕ) (c : ℕ) → no_spaces (w ++ c ∷ []) ≡ (no_spaces w && not (isspace c))
no_spaces-snoc [] c = ground arith
no_spaces-snoc (d ∷ w) c = ground (arith, no_spaces-snoc w c)

is_empty-snoc : (w : List ℕ) (c : ℕ) → is_empty (w ++ c ∷ []) ≡ false
is_empty-snoc [] c = refl
is_empty-snoc (d ∷ w) c = refl

collect-all_words :
    (in_word : Bool) (word line : List ℕ)
    → no_spaces word ≡ true
    → is_empty word ≡ not in_word
    → all_words (collect_words in_word word line) ≡ true
unfolding collect_words
collect-all_words in_word word [] n e = ground arith
collect-all_words in_word word (c ∷ cs) n e =
    let next = if isspace c then [] else word ++ c ∷ [] in
    let ih = collect-all_words (not (isspace c)) next cs in
    ground (arith, no_spaces-snoc word c, is_empty-snoc word c, ih)

nil_of_is_empty : (w : List ℕ) → is_empty w ≡ true → w ≡ []
nil_of_is_empty [] e = refl
nil_of_is_empty (c ∷ cs) e = cc

collect-letters :
    (in_word : Bool) (word line : List ℕ)
    → is_empty word ≡ not in_word
    → concat (collect_words in_word word line) ≡ word ++ letters line
unfolding collect_words
collect-letters true word [] e = refl
collect-letters false word [] e = ap (λ w. w ++ []) (sym (nil_of_is_empty word e))
collect-letters in_word word (c ∷ cs) e = elim (Bool-cases (isspace c)) [
  | inl space ↦
      let ih = collect-letters false [] cs refl in
      elim (Bool-cases in_word) [
        | inl inside ↦ rw (space, inside) (ap (λ l. word ++ l) ih)
        | inr outside ↦
            let empty : word ≡ [] = nil_of_is_empty word (e ∙ ap not outside) in
            rw (space, outside, empty) ih
      ]
  | inr letter ↦ rw letter (
      collect-letters true (word ++ c ∷ []) cs (is_empty-snoc word c)
      ∙ append_assoc word (c ∷ []) (letters cs))
]

-- `argv` has `argc` entries, so that the array holds them; each is a word without spaces; and in
-- order they make up the line without its spaces.
pub parse_cmdline_lem :
    (line : List ℕ)
    → (length (parse_cmdline line).argv ≡ (parse_cmdline line).argc)
      × (all_words (parse_cmdline line).argv ≡ true)
      × (concat (parse_cmdline line).argv ≡ letters line)
unfolding parse_cmdline
parse_cmdline_lem line = (
  count-collect false [] line,
  collect-all_words false [] line refl refl,
  collect-letters false [] line refl,
)

-- The words, with a space behind each.
abbrev pub spaced : List (List ℕ) → List ℕ
spaced [] = []
spaced (w ∷ ws) = w ++ 32 ∷ spaced ws

collect-word :
    (w word rest : List ℕ) (in_word : Bool)
    → no_spaces w ≡ true
    → (is_empty w && not in_word) ≡ false
    → collect_words in_word word (w ++ 32 ∷ rest) ≡ (word ++ w) ∷ collect_words false [] rest
unfolding collect_words
collect-word [] word rest in_word n e =
    let inside : in_word ≡ true = ground arith in
    rw inside (ap (λ w. w ∷ collect_words false [] rest) (sym (append-nil word)))
collect-word (c ∷ cs) word rest in_word n e =
    let letter : isspace c ≡ false = ground arith in
    rw letter (
      collect-word cs (word ++ c ∷ []) rest true (ground arith) (ground arith)
      ∙ ap (λ w. w ∷ collect_words false [] rest) (append_assoc word (c ∷ []) cs))

-- Words that are written with a space behind each are read back.
pub parse_cmdline-spaced :
    (ws : List (List ℕ)) → all_words ws ≡ true → (parse_cmdline (spaced ws)).argv ≡ ws
unfolding parse_cmdline
parse_cmdline-spaced [] h = (unfold collect_words in refl)
parse_cmdline-spaced (w ∷ ws) h =
    collect-word w [] (spaced ws) false (ground arith) (ground arith)
    ∙ ap (λ l. w ∷ l) (parse_cmdline-spaced ws (ground arith))
