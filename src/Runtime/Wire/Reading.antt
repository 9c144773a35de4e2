-- ===== src/Runtime/Wire/Reading.antt =====
-- Reading what was written: numbers, texts and addresses.
use nreduce.Base.{
  ℕ, zero, suc, ◌+◌, ◌^◌, ◌<◌, true, ◌≡◌, refl, sym, ap, subst, ◌∙◌, List, [], ◌∷◌, ◌++◌, length,
  take, drop, some, ltb, leb, if◌then◌else◌, arith, length-append, ==-refl,
}
use mathlib.Core.List.{append_assoc}
use nreduce.Runtime.Wire.Bytes.{to_bytes, length-to_bytes, of_bytes-to_bytes}
use nreduce.Runtime.Wire.{
  is_null, Reader, read_bytes, read_number, read_string, read_binary, read_gaddr,
}
use nreduce.Runtime.Wire.Fields.{
  Arg, char, int, double, string, binary, gaddr, Field, field_of, read_field, encoded, Fits,
  addresses_in,
}

-- What is left to read.
pub record At (rd : Reader) (rest : List ℕ) : Type 0 where
  pub left : drop rd.pos rd.content ≡ rest
  pub size : rd.size ≡ rd.pos + length rest

abbrev pub advance : Reader → ℕ → Reader
advance rd n = record rd { pos = rd.pos + n }

take-length : (a b : List ℕ) → take (length a) (a ++ b) ≡ a
take-length [] b = refl
take-length (x ∷ a) b = ap (λ (l : List ℕ). x ∷ l) (take-length a b)

drop-nil : (n : ℕ) → drop {A = ℕ} n [] ≡ []
drop-nil zero = refl
drop-nil (suc n) = refl

drop-add : (n m : ℕ) (l : List ℕ) → drop (n + m) l ≡ drop m (drop n l)
drop-add zero m l = ap (λ (k : ℕ). drop k l) (omega arith)
drop-add (suc n) m [] = drop-nil (suc n + m) ∙ sym (drop-nil m)
drop-add (suc n) m (y ∷ l) =
    subst (λ (k : ℕ). drop k (y ∷ l) ≡ drop m (drop n l)) {x = suc (n + m)} (omega arith)
      (drop-add n m l)

drop-all : (a b : List ℕ) → drop (length a) (a ++ b) ≡ b
drop-all [] b = refl
drop-all (x ∷ a) b = drop-all a b

drop-length : (n : ℕ) (a b l : List ℕ) → drop n l ≡ a ++ b → drop (n + length a) l ≡ b
drop-length n a b l h = drop-add n (length a) l ∙ ap (drop (length a)) h ∙ drop-all a b

read_bytes-At :
    (rd : Reader) (a b : List ℕ)
    → At rd (a ++ b)
    → (read_bytes rd (length a) ≡ some (a, advance rd (length a))) × At (advance rd (length a)) b
unfolding read_bytes
read_bytes-At rd a b at =
    let within : leb (rd.pos + length a) rd.size ≡ true =
      ground (arith, at.size, length-append a b) in
    (
      rw within (rw at.left (rw (take-length a b) refl)),
      record {
        left = drop-length rd.pos a b rd.content at.left;
        size = omega (arith, at.size, length-append a b);
      },
    )

-- A field is read back, and the reader stands behind it.
pub record ReadBack (f : Field) (rd : Reader) (arg : Arg) (rest : List ℕ) : Type 0 where
  pub rd' : Reader
  pub result : read_field f rd ≡ some (arg, rd')
  pub at : At rd' rest
  pub counted : rd'.naddrsread ≡ rd.naddrsread + length (addresses_in arg)

-- A number is read back.
record NumberBack (n : ℕ) (rd : Reader) (v : ℕ) (rest : List ℕ) : Type 0 where
  rd' : Reader
  result : read_number n rd ≡ some (v, rd')
  at : At rd' rest
  counted : rd'.naddrsread ≡ rd.naddrsread

number-back :
    (n : ℕ) (rd : Reader) (v : ℕ) (rest : List ℕ)
    → v < 256 ^ n
    → At rd (to_bytes n v ++ rest)
    → NumberBack n rd v rest
unfolding read_number
number-back n rd v rest less at =
    let (e, at1) = read_bytes-At rd (to_bytes n v) rest at in
    let e1 : read_bytes rd n ≡ some (to_bytes n v, advance rd (length (to_bytes n v))) =
      subst (λ (k : ℕ). read_bytes rd k ≡ some (to_bytes n v, advance rd (length (to_bytes n v))))
        (length-to_bytes n v) e in
    record {
      rd' = advance rd (length (to_bytes n v));
      result = rw (e1, of_bytes-to_bytes n v less) refl;
      at = at1;
      counted = refl;
    }

bytes-back :
    (rd : Reader) (b rest : List ℕ)
    → length b < 2 ^ 31
    → At rd ((to_bytes 4 (length b) ++ b) ++ rest)
    → NumberBack 4 rd (length b) (b ++ rest)
bytes-back rd b rest less at =
    number-back 4 rd (length b) (b ++ rest) (omega arith)
      (subst (At rd) (append_assoc (to_bytes 4 (length b)) b rest) at)

pub read_field-ReadBack :
    (arg : Arg) (rd : Reader) (rest : List ℕ)
    → Fits arg
    → At rd (encoded arg ++ rest)
    → ReadBack (field_of arg) rd arg rest
unfolding read_field read_string read_binary read_gaddr
read_field-ReadBack (char c) rd rest fits at =
    let a = number-back 1 rd c rest fits at in
    record { rd' = a.rd'; result = rw a.result refl; at = a.at; counted = omega (arith, a.counted) }
read_field-ReadBack (int i) rd rest fits at =
    let a = number-back 4 rd i rest (omega arith) at in
    record { rd' = a.rd'; result = rw a.result refl; at = a.at; counted = omega (arith, a.counted) }
read_field-ReadBack (double d) rd rest fits at =
    let a = number-back 8 rd d rest (omega arith) at in
    record { rd' = a.rd'; result = rw a.result refl; at = a.at; counted = omega (arith, a.counted) }
read_field-ReadBack (string s) rd rest fits at =
    let a = bytes-back rd s rest fits at in
    let (e, at1) = read_bytes-At a.rd' s rest a.at in
    let short : ltb (length s) (2 ^ 31) ≡ true = ground arith in
    record {
      rd' = advance a.rd' (length s);
      result = rw (a.result, short, e) refl;
      at = at1;
      counted = omega (arith, a.counted);
    }
read_field-ReadBack (binary b) rd rest fits at =
    let a = bytes-back rd b rest fits at in
    let (e, at1) = read_bytes-At a.rd' b rest a.at in
    record {
      rd' = advance a.rd' (length b);
      result = rw (a.result, ==-refl (length b) (length b) refl, e) refl;
      at = at1;
      counted = omega (arith, a.counted);
    }
read_field-ReadBack (gaddr g) rd rest fits at =
    let a =
      number-back 4 rd g.tid (to_bytes 4 g.lid ++ rest) (omega (arith, fits.0))
        (subst (At rd) (append_assoc (to_bytes 4 g.tid) (to_bytes 4 g.lid) rest) at) in
    let b = number-back 4 a.rd' g.lid rest (omega (arith, fits.1)) a.at in
    record {
      rd' = record b.rd' {
        naddrsread = if is_null g then b.rd'.naddrsread else suc b.rd'.naddrsread;
      };
      result = rw (a.result, b.result) refl;
      at = record { left = b.at.left; size = b.at.size };
      counted = ground (arith, a.counted, b.counted);
    }
