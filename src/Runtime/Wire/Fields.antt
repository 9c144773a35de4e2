-- ===== src/Runtime/Wire/Fields.antt =====
-- Messages written by a format (`write_vformat` of nreduce/runtime/data.c), and read field by field.
use nreduce.Base.{
  ℕ, ◌^◌, ◌<◌, List, [], ◌∷◌, ◌++◌, length, Option, none, some, ◌>>=◌, ◌>>◌, assert, ◌==◌,
  if◌then◌else◌,
}
use nreduce.Util.Arrays.{Array}
use nreduce.Runtime.Wire.Bytes.{to_bytes}
use nreduce.Runtime.Wire.{
  Gaddr, is_null, Reader, write_char, write_int, write_double, write_string, write_binary,
  write_gaddr, read_char, read_int, read_double, read_string, read_binary, read_gaddr,
}

-- The arguments that a format stands for; a heap object is none of them.
pub data Arg : Type 0 where
  char : ℕ → Arg
  int : ℕ → Arg
  double : (bits : ℕ) → Arg
  string : List ℕ → Arg
  binary : List ℕ → Arg
  gaddr : Gaddr → Arg

-- An array, and the task's addresses on their way.
abbrev pub Out : Type 0
Out = Array × List Gaddr

abbrev pub keep : List Gaddr → Option Array → Option Out
keep inflight wr = wr >>= λ wr1. some (wr1, inflight)

-- The case of a format character; `none` is an argument of another type, or the call of `fatal`.
unfoldable pub write_arg : ℕ → Arg → Array → List Gaddr → Option Out
write_arg f (char c) wr inflight = assert (f == b'c') >> keep inflight (write_char wr c)
write_arg f (int i) wr inflight = assert (f == b'i') >> keep inflight (write_int wr i)
write_arg f (double d) wr inflight = assert (f == b'd') >> keep inflight (write_double wr d)
write_arg f (string s) wr inflight = assert (f == b's') >> keep inflight (write_string wr s)
write_arg f (binary b) wr inflight = assert (f == b'b') >> keep inflight (write_binary wr b)
write_arg f (gaddr a) wr inflight = assert (f == b'a') >> write_gaddr wr inflight a

-- The format characters 'p' and 'r', for heap objects, have no argument here.
unfoldable pub write_vformat : List ℕ → List Arg → Array → List Gaddr → Option Out
write_vformat [] args wr inflight = some (wr, inflight)
write_vformat (f ∷ fmt) [] wr inflight = none
write_vformat (f ∷ fmt) (a ∷ args) wr inflight =
    write_arg f a wr inflight >>= λ (wr1, inflight1). write_vformat fmt args wr1 inflight1

-- The character for an argument, and the format for a list of them.
abbrev pub format_of : Arg → ℕ
format_of (char c) = b'c'
format_of (int i) = b'i'
format_of (double d) = b'd'
format_of (string s) = b's'
format_of (binary b) = b'b'
format_of (gaddr a) = b'a'

-- What a receiver reads by a call.
pub data Field : Type 0 where
  a_char : Field
  an_int : Field
  a_double : Field
  a_string : Field
  a_binary : (len : ℕ) → Field
  a_gaddr : Field

abbrev pub field_of : Arg → Field
field_of (char c) = a_char
field_of (int i) = an_int
field_of (double d) = a_double
field_of (string s) = a_string
field_of (binary b) = a_binary (length b)
field_of (gaddr a) = a_gaddr

abbrev pub as_arg : {A : Type 0} → (A → Arg) → Option (A × Reader) → Option (Arg × Reader)
as_arg con r = r >>= λ (a, rd). some (con a, rd)

unfoldable pub read_field : Field → Reader → Option (Arg × Reader)
read_field a_char rd = as_arg char (read_char rd)
read_field an_int rd = as_arg int (read_int rd)
read_field a_double rd = as_arg double (read_double rd)
read_field a_string rd = as_arg string (read_string rd)
read_field (a_binary len) rd = as_arg binary (read_binary rd len)
read_field a_gaddr rd = as_arg gaddr (read_gaddr rd)

unfoldable pub read_fields : List Field → Reader → Option (List Arg × Reader)
read_fields [] rd = some ([], rd)
read_fields (f ∷ fs) rd =
    read_field f rd >>= λ (a, rd1). read_fields fs rd1 >>= λ (args, rd2). some (a ∷ args, rd2)

-- The bytes of an argument.
abbrev pub encoded : Arg → List ℕ
encoded (char c) = to_bytes 1 c
encoded (int i) = to_bytes 4 i
encoded (double d) = to_bytes 8 d
encoded (string s) = to_bytes 4 (length s) ++ s
encoded (binary b) = to_bytes 4 (length b) ++ b
encoded (gaddr a) = to_bytes 4 a.tid ++ to_bytes 4 a.lid

-- The values are those of their C types, and the texts not longer than an `int` can say.
abbrev pub Fits : Arg → Type 0
Fits (char c) = c < 256
Fits (int i) = i < 2 ^ 32
Fits (double d) = d < 2 ^ 64
Fits (string s) = length s < 2 ^ 31
Fits (binary b) = length b < 2 ^ 31
Fits (gaddr a) = (a.tid < 2 ^ 32) × (a.lid < 2 ^ 32)

abbrev pub AllFit : List Arg → Type 0
AllFit [] = Unit
AllFit (a ∷ args) = Fits a × AllFit args

-- The addresses among the arguments that are not null.
abbrev pub addresses_in : Arg → List Gaddr
addresses_in (gaddr a) = if is_null a then [] else a ∷ []
addresses_in other = []

abbrev pub addresses : List Arg → List Gaddr
addresses [] = []
addresses (a ∷ args) = addresses_in a ++ addresses args
