-- ===== src/Runtime/Wire/Tests.antt =====
-- Runs of the encoding of messages, and the cases in which its theorems apply.
use nreduce.Base.{ℕ, ◌+◌, ◌≡◌, refl, List, [], ◌∷◌, length, map, none, some, ◌>>=◌, codes, arith}
use nreduce.Util.Arrays.{Array, array_new, array_append, array_mkroom, double_until}
use nreduce.Runtime.Wire.{
  Reader, minus_one, write_start, write_int, read_start, read_string, read_number, read_bytes,
  read_end,
}
use nreduce.Runtime.Wire.Bytes.{to_bytes, of_bytes}
use nreduce.Runtime.Wire.Fields.{
  Arg, int, string, gaddr, write_vformat, format_of, field_of, read_fields, AllFit, addresses,
}
use nreduce.Runtime.Wire.Roundtrip.{noted, read_fields-write_vformat}

-- 258 is written with its lowest byte first.
write_int_run : (write_int write_start 258 >>= λ wr. some wr.content) ≡ some (2 ∷ 1 ∷ 0 ∷ 0 ∷ [])
unfolding write_int write_start array_new array_append array_mkroom double_until to_bytes
write_int_run = refl

-- A message that ends too early is not read.
read_string_run : read_string (read_start 0 (5 ∷ 0 ∷ 0 ∷ 0 ∷ 97 ∷ []) 5) ≡ none
unfolding read_string read_start read_number read_bytes of_bytes
read_string_run = refl

-- An integer, a text, an address and the null address.
abbrev args : List Arg
args =
    int 7
    ∷ string (codes "abc")
    ∷ gaddr (record { tid = 1; lid = 5 })
    ∷ gaddr (record { tid = minus_one; lid = minus_one })
    ∷ []

args_fit : AllFit args
args_fit =
    (omega arith, (omega arith, ((omega arith, omega arith), ((omega arith, omega arith), tt))))

read_fields-write_vformat_example :
    (wr : Array) × (write_vformat (map format_of args) args write_start []
      ≡ some (wr, noted (addresses args) []))
    × ((naddrsread : ℕ)
        → (rd : Reader) × (read_fields
              (map field_of args)
              (read_start naddrsread wr.content wr.nbytes)
            ≡ some (args, rd))
          × (read_end rd ≡ some tt)
          × (rd.naddrsread ≡ naddrsread + length (addresses args)))
read_fields-write_vformat_example =
    read_fields-write_vformat args [] args_fit (unfold to_bytes in omega arith)
