-- ===== src/Runtime/Wire/Roundtrip.antt =====
-- A message is read as it was written.
use nreduce.Base.{
  ℕ, ◌+◌, ◌≤◌, true, ◌≡◌, refl, sym, ap, ◌∙◌, List, [], ◌∷◌, ◌++◌, length, map, Option, some, ◌==◌,
  arith, Bool-cases, inl, inr, length-append, ==-refl,
}
use mathlib.Core.List.{append-nil, append_assoc}
use nreduce.Util.Arrays.{Array, array_new, array_append, IsSound, max_size, array_append-some}
use nreduce.Runtime.Wire.Bytes.{to_bytes}
use nreduce.Runtime.Wire.{
  Gaddr, is_null, Reader, write_start, write_char, write_int, write_double, write_string,
  write_binary, write_gaddr, add_gaddr, read_start, read_end,
}
use nreduce.Runtime.Wire.Fields.{
  Arg, char, int, double, string, binary, gaddr, write_arg, write_vformat, format_of, field_of,
  read_fields, encoded, AllFit, addresses_in, addresses, Out,
}
use nreduce.Runtime.Wire.Reading.{At, read_field-ReadBack}

-- The addresses in the order in which a task notes them, the last one first.
abbrev pub noted : List Gaddr → List Gaddr → List Gaddr
noted [] inflight = inflight
noted (a ∷ addrs) inflight = noted addrs (a ∷ inflight)

-- An argument is appended to the array, and its address noted.
record Written (wr : Array) (inflight : List Gaddr) (arg : Arg) (r : Option Out) : Type 0 where
  wr' : Array
  result : r ≡ some (wr', noted (addresses_in arg) inflight)
  sound : IsSound wr'
  content : wr'.content ≡ wr.content ++ encoded arg

plain :
    (wr : Array) (inflight : List Gaddr) (bytes : List ℕ)
    → IsSound wr
    → wr.nbytes + length bytes ≤ max_size
    → (wr' : Array) × (array_append wr bytes ≡ some wr')
      × IsSound wr'
      × (wr'.content ≡ wr.content ++ bytes)
plain wr inflight bytes s u =
    let (wr', e, a) = array_append-some wr bytes s u in (wr', e, a.sound, a.written)

two :
    (wr : Array) (a b : List ℕ)
    → IsSound wr
    → wr.nbytes + length (a ++ b) ≤ max_size
    → (wr1 : Array) × (wr2 : Array) × (array_append wr a ≡ some wr1)
      × (array_append wr1 b ≡ some wr2)
      × IsSound wr2
      × (wr2.content ≡ wr.content ++ (a ++ b))
two wr a b s u =
    let both : length (a ++ b) ≡ length a + length b = length-append a b in
    let (wr1, e1, p) = array_append-some wr a s (omega arith) in
    let first : length wr1.content ≡ length wr.content + length a =
      ap length p.written ∙ length-append wr.content a in
    let (wr2, e2, q) = array_append-some wr1 b p.sound (omega (arith, p.sound.used, s.used)) in
    (
      wr1,
      wr2,
      e1,
      e2,
      q.sound,
      q.written ∙ ap (λ (l : List ℕ). l ++ b) p.written ∙ append_assoc wr.content a b,
    )

noted-add :
    (g : Gaddr) (inflight : List Gaddr)
    → add_gaddr inflight g ≡ noted (addresses_in (gaddr g)) inflight
unfolding add_gaddr
noted-add g inflight = elim (Bool-cases (is_null g)) [
  | inl null ↦ rw null refl
  | inr addr ↦ rw addr refl
]

write_arg-Written :
    (arg : Arg) (wr : Array) (inflight : List Gaddr)
    → IsSound wr
    → wr.nbytes + length (encoded arg) ≤ max_size
    → Written wr inflight arg (write_arg (format_of arg) arg wr inflight)
unfolding write_arg write_char write_int write_double write_string write_binary write_gaddr
write_arg-Written (char c) wr inflight s u =
    let (wr', e, sound, content) = plain wr inflight (to_bytes 1 c) s u in
    record { wr' = wr'; result = rw e refl; sound = sound; content = content }
write_arg-Written (int i) wr inflight s u =
    let (wr', e, sound, content) = plain wr inflight (to_bytes 4 i) s u in
    record { wr' = wr'; result = rw e refl; sound = sound; content = content }
write_arg-Written (double d) wr inflight s u =
    let (wr', e, sound, content) = plain wr inflight (to_bytes 8 d) s u in
    record { wr' = wr'; result = rw e refl; sound = sound; content = content }
write_arg-Written (string b) wr inflight s u =
    let (wr1, wr2, e1, e2, sound, content) = two wr (to_bytes 4 (length b)) b s u in
    record { wr' = wr2; result = rw (e1, e2) refl; sound = sound; content = content }
write_arg-Written (binary b) wr inflight s u =
    let (wr1, wr2, e1, e2, sound, content) = two wr (to_bytes 4 (length b)) b s u in
    record { wr' = wr2; result = rw (e1, e2) refl; sound = sound; content = content }
write_arg-Written (gaddr g) wr inflight s u =
    let (wr1, wr2, e1, e2, sound, content) = two wr (to_bytes 4 g.tid) (to_bytes 4 g.lid) s u in
    record {
      wr' = wr2;
      result = rw (e1, e2) (ap (λ (l : List Gaddr). some (wr2, l)) (noted-add g inflight));
      sound = sound;
      content = content;
    }

abbrev pub all_encoded : List Arg → List ℕ
all_encoded [] = []
all_encoded (a ∷ args) = encoded a ++ all_encoded args

noted-append :
    (addrs bs inflight : List Gaddr)
    → noted (addrs ++ bs) inflight ≡ noted bs (noted addrs inflight)
noted-append [] bs inflight = refl
noted-append (a ∷ addrs) bs inflight = noted-append addrs bs (a ∷ inflight)

record AllWritten (wr : Array) (inflight : List Gaddr) (args : List Arg) (r : Option Out)
    : Type 0 where
  wr' : Array
  result : r ≡ some (wr', noted (addresses args) inflight)
  sound : IsSound wr'
  content : wr'.content ≡ wr.content ++ all_encoded args

write_vformat-AllWritten :
    (args : List Arg) (wr : Array) (inflight : List Gaddr)
    → IsSound wr
    → wr.nbytes + length (all_encoded args) ≤ max_size
    → AllWritten wr inflight args (write_vformat (map format_of args) args wr inflight)
unfolding write_vformat
write_vformat-AllWritten [] wr inflight s u = record {
  wr' = wr;
  result = refl;
  sound = s;
  content = sym (append-nil wr.content);
}
write_vformat-AllWritten (arg ∷ args) wr inflight s u =
    let both = length-append (encoded arg) (all_encoded args) in
    let a = write_arg-Written arg wr inflight s (omega arith) in
    let first : length a.wr'.content ≡ length wr.content + length (encoded arg) =
      ap length a.content ∙ length-append wr.content (encoded arg) in
    let b =
      write_vformat-AllWritten args a.wr' (noted (addresses_in arg) inflight) a.sound
        (omega (arith, a.sound.used, s.used)) in
    record {
      wr' = b.wr';
      result = rw a.result (
          b.result
          ∙ ap (λ (l : List Gaddr). some (b.wr', l))
              (sym (noted-append (addresses_in arg) (addresses args) inflight)));
      sound = b.sound;
      content =
          b.content
          ∙ ap (λ (l : List ℕ). l ++ all_encoded args) a.content
          ∙ append_assoc wr.content (encoded arg) (all_encoded args);
    }

record AllRead (args : List Arg) (rd : Reader) : Type 0 where
  rd' : Reader
  result : read_fields (map field_of args) rd ≡ some (args, rd')
  at : At rd' []
  counted : rd'.naddrsread ≡ rd.naddrsread + length (addresses args)

read_fields-AllRead :
    (args : List Arg) (rd : Reader) → AllFit args → At rd (all_encoded args) → AllRead args rd
unfolding read_fields
read_fields-AllRead [] rd fits at = record {
  rd' = rd;
  result = refl;
  at = at;
  counted = omega arith;
}
read_fields-AllRead (arg ∷ args) rd fits at =
    let a = read_field-ReadBack arg rd (all_encoded args) fits.0 at in
    let b = read_fields-AllRead args a.rd' fits.1 a.at in
    record {
      rd' = b.rd';
      result = rw (a.result, b.result) refl;
      at = b.at;
      counted =
          omega (arith, a.counted, b.counted, length-append (addresses_in arg) (addresses args));
    }

write_start-IsSound : IsSound write_start
unfolding write_start array_new
write_start-IsSound = record { used = refl; fits = omega arith; roomy = omega arith }

write_start-empty : write_start.content ≡ []
unfolding write_start array_new
write_start-empty = refl

write_start-unused : write_start.nbytes ≡ 0
unfolding write_start array_new
write_start-unused = refl

-- Arguments that fit their types and take up to 2 ^ 30 bytes together are written under their
-- format, and reading the message field by field gives them back and ends at the end of the message; the sender has noted the addresses among
-- them that are not null, and the receiver has counted as many.
pub read_fields-write_vformat :
    (args : List Arg) (inflight : List Gaddr)
    → AllFit args
    → length (all_encoded args) ≤ max_size
    → (wr : Array) × (write_vformat (map format_of args) args write_start inflight
        ≡ some (wr, noted (addresses args) inflight))
      × ((naddrsread : ℕ)
          → (rd : Reader) × (read_fields
                (map field_of args)
                (read_start naddrsread wr.content wr.nbytes)
              ≡ some (args, rd))
            × (read_end rd ≡ some tt)
            × (rd.naddrsread ≡ naddrsread + length (addresses args)))
unfolding read_start read_end
read_fields-write_vformat args inflight fits small =
    let a =
      write_vformat-AllWritten args write_start inflight write_start-IsSound
        (omega (arith, write_start-unused)) in
    let all : a.wr'.content ≡ all_encoded args =
      a.content ∙ ap (λ (l : List ℕ). l ++ all_encoded args) write_start-empty in
    (
      a.wr',
      a.result,
      λ naddrsread.
          let at : At (read_start naddrsread a.wr'.content a.wr'.nbytes) (all_encoded args) =
            record { left = all; size = omega (arith, a.sound.used, ap length all) } in
          let b =
            read_fields-AllRead args (read_start naddrsread a.wr'.content a.wr'.nbytes) fits at in
          let ended : b.rd'.size == b.rd'.pos ≡ true =
            ==-refl b.rd'.size b.rd'.pos (omega (arith, b.at.size)) in
          (b.rd', b.result, rw ended refl, b.counted),
    )
