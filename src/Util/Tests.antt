-- ===== src/Util/Tests.antt =====
-- Texts, lines, arrays, lists and stacks of a few bytes.
use nreduce.Util.Times.{Timeval, timeval_addms, micros, timeval_addms_lem, substring, substring_lem}
use nreduce.Base.{
  ℕ, ◌+◌, ◌*◌, ◌≤◌, ◌<◌, true, ◌≡◌, refl, [], ◌∷◌, ◌++◌, List, length, none, some, ◌>>=◌, codes,
  arith, ◌-◌,
}
use nreduce.Util.Escape.{escape, unescape, unescape-escape}
use nreduce.Util.Words.{parse_cmdline, collect_words, all_words, concat, letters, parse_cmdline_lem}
use nreduce.Util.Arrays.{
  Array, IsSound, Appended, array_append, array_remove_data, array_append-Appended,
  array_remove_data-array_append, max_size, int_limit,
}
use nreduce.Util.Lists.{list_contains_ptr, list_remove_ptr, IsRemoved, list_remove_ptr-IsRemoved}
use nreduce.Util.Stacks.{
  Stack, stack_new, stack_push, IsPushed, stack_new-IsReached, stack_push-IsPushed,
}

-- A quote and a line feed.
abbrev text : List ℕ
text = 34 ∷ codes "a" ++ 10 ∷ []

escape_run : escape text ≡ 92 ∷ 34 ∷ codes "a" ++ 92 ∷ codes "n"
unfolding escape
escape_run = refl

-- An unknown letter behind a backslash is lost.
unescape_run : unescape (codes "x" ++ 92 ∷ codes "qy") ≡ codes "xy"
unfolding unescape
unescape_run = refl

unescape-escape_example : unescape (escape text) ≡ text
unescape-escape_example = unescape-escape text

parse_cmdline_run :
    (parse_cmdline (codes " put  key value")).argv ≡ codes "put" ∷ codes "key" ∷ codes "value" ∷ []
unfolding parse_cmdline collect_words
parse_cmdline_run = refl

parse_cmdline_lem_example :
    (length (parse_cmdline (codes " put  key")).argv ≡ (parse_cmdline (codes " put  key")).argc)
    × (all_words (parse_cmdline (codes " put  key")).argv ≡ true)
    × (concat (parse_cmdline (codes " put  key")).argv ≡ letters (codes " put  key"))
parse_cmdline_lem_example = parse_cmdline_lem (codes " put  key")

-- An array of four bytes, with three of them used.
abbrev small : Array
small = record { elemsize = 1; alloc = 4; nbytes = 3; content = 1 ∷ 2 ∷ 3 ∷ [] }

small-IsSound : IsSound small
small-IsSound = record { used = refl; fits = omega arith; roomy = omega arith }

array_append-Appended_example :
    (3 + 2 ≤ max_size
      → (arr' : Array) × (array_append small (4 ∷ 5 ∷ []) ≡ some arr')
        × Appended small (4 ∷ 5 ∷ []) arr')
    × (int_limit ≤ 3 + 2 → array_append small (4 ∷ 5 ∷ []) ≡ none)
array_append-Appended_example = array_append-Appended small (4 ∷ 5 ∷ []) small-IsSound

array_remove_data-array_append_example :
    (arr' : Array) × ((array_append small (4 ∷ 5 ∷ []) >>= λ full. array_remove_data full 3)
      ≡ some arr')
    × (arr'.content ≡ 4 ∷ 5 ∷ [])
    × IsSound arr'
array_remove_data-array_append_example =
    array_remove_data-array_append small (4 ∷ 5 ∷ []) small-IsSound (omega arith)

abbrev two : List ℕ
two = 7 ∷ 8 ∷ []

list_remove_ptr-IsRemoved_example :
    (l' : List ℕ) × (list_remove_ptr (7 ∷ 8 ∷ 7 ∷ []) 7 ≡ some l') × IsRemoved (7 ∷ 8 ∷ 7 ∷ []) 7 l'
list_remove_ptr-IsRemoved_example =
    list_remove_ptr-IsRemoved (7 ∷ 8 ∷ 7 ∷ []) 7 (unfold list_contains_ptr in refl)

stack_push-IsPushed_example :
    (0 < 16384 → (s' : Stack) × (stack_push stack_new 5 ≡ some s') × IsPushed stack_new 5 s')
    × (16384 ≤ 0 → stack_push stack_new 5 ≡ none)
stack_push-IsPushed_example = stack_push-IsPushed stack_new 5 stack_new-IsReached

-- 1.9 seconds and 250 milliseconds.
abbrev instant : Timeval
instant = record { tv_sec = 1; tv_usec = 900000 }

timeval_addms_run : timeval_addms instant 250 ≡ record { tv_sec = 2; tv_usec = 150000 }
unfolding timeval_addms
timeval_addms_run = refl

timeval_addms_lem_example :
    (micros (timeval_addms instant 250) ≡ micros instant + 250 * 1000)
    × ((timeval_addms instant 250).tv_usec < 1000000)
timeval_addms_lem_example = timeval_addms_lem instant 250 (omega arith)

substring_lem_example :
    (1 ≤ 3
      → 3 ≤ length (codes "chord")
      → (before : List ℕ) × (sub : List ℕ) × (after : List ℕ) × (substring (codes "chord") 1 3
          ≡ some sub)
        × (codes "chord" ≡ before ++ (sub ++ after))
        × ◌≡◌ {A = ℕ} (length before) 1
        × (length sub ≡ 3 - 1))
    × ((sub : List ℕ)
        → substring (codes "chord") 1 3 ≡ some sub
        → (1 ≤ 3) × (3 ≤ length (codes "chord")))
substring_lem_example = substring_lem (codes "chord") 1 3
