-- ===== src/Runtime/Wire.antt =====
-- The encoding of messages between tasks (the write and read functions of nreduce/runtime/data.c).
pub mod Bytes
pub mod Fields
pub mod Reading
pub mod Roundtrip
mod Tests
use nreduce.Base.{
  ℕ, zero, suc, ◌+◌, ◌*◌, ◌%◌, ◌/◌, ◌^◌, Bool, true, false, not, ◌&&◌, ◌||◌, List, [], ◌∷◌, ◌++◌,
  length, take, drop, Option, none, some, ◌>>=◌, ◌>>◌, assert, ◌==◌, ltb, leb, if◌then◌else◌,
}
use nreduce.Endpoint.{EndpointId}
use nreduce.Util.Arrays.{Array, array_new, array_append}
use nreduce.Runtime.Wire.Bytes.{to_bytes, of_bytes}

-- `gaddr`; -1 is the greatest number of 32 bits.
pub record Gaddr : Type 0 where
  pub tid : ℕ
  pub lid : ℕ

abbrev pub minus_one : ℕ
minus_one = 4294967295

abbrev pub is_null : Gaddr → Bool
is_null a = a.tid == minus_one && a.lid == minus_one

-- `socketid`
pub record SocketId : Type 0 where
  pub coordid : EndpointId
  pub sid : ℕ

unfoldable pub write_start : Array
write_start = array_new 1 0

-- An integer is the bytes that it has in memory, the lowest first.
unfoldable pub write_char : Array → ℕ → Option Array
write_char wr c = array_append wr (to_bytes 1 c)

unfoldable pub write_int : Array → ℕ → Option Array
write_int wr i = array_append wr (to_bytes 4 i)

unfoldable pub write_uint : Array → ℕ → Option Array
write_uint wr i = array_append wr (to_bytes 4 i)

unfoldable pub write_short : Array → ℕ → Option Array
write_short wr i = array_append wr (to_bytes 2 i)

unfoldable pub write_ushort : Array → ℕ → Option Array
write_ushort wr i = array_append wr (to_bytes 2 i)

unfoldable pub write_double : Array → ℕ → Option Array
write_double wr d = array_append wr (to_bytes 8 d)

unfoldable pub write_string : Array → List ℕ → Option Array
write_string wr s = do wr1 ← array_append wr (to_bytes 4 (length s)); array_append wr1 s

unfoldable pub write_binary : Array → List ℕ → Option Array
write_binary wr b = do wr1 ← array_append wr (to_bytes 4 (length b)); array_append wr1 b

unfoldable pub write_socketid : Array → SocketId → Option Array
write_socketid wr sockid = do
  wr1 ← write_uint wr sockid.coordid.ip
  wr2 ← write_ushort wr1 sockid.coordid.port
  wr3 ← write_uint wr2 sockid.coordid.localid
  write_uint wr3 sockid.sid

-- `add_gaddr`
unfoldable pub add_gaddr : List Gaddr → Gaddr → List Gaddr
add_gaddr l addr = if is_null addr then l else addr ∷ l

-- The array, and the task's list of addresses that are on their way.
unfoldable pub write_gaddr : Array → List Gaddr → Gaddr → Option (Array × List Gaddr)
write_gaddr wr inflight a = do
  wr1 ← array_append wr (to_bytes 4 a.tid)
  wr2 ← array_append wr1 (to_bytes 4 a.lid)
  some (wr2, add_gaddr inflight a)

-- `reader`, with the counter of its task.
pub record Reader : Type 0 where
  pub content : List ℕ
  pub size : ℕ
  pub pos : ℕ
  pub naddrsread : ℕ

unfoldable pub read_start : ℕ → List ℕ → ℕ → Reader
read_start naddrsread content size = record {
  content = content;
  size = size;
  pos = 0;
  naddrsread = naddrsread;
}

-- `none` is a failed assertion.
unfoldable pub read_bytes : Reader → ℕ → Option (List ℕ × Reader)
read_bytes rd count = do
  assert (leb (rd.pos + count) rd.size)
  some (take count (drop rd.pos rd.content), record rd { pos = rd.pos + count })

-- An integer of `count` bytes.
unfoldable pub read_number : ℕ → Reader → Option (ℕ × Reader)
read_number count rd = read_bytes rd count >>= λ (bytes, rd1). some (of_bytes bytes, rd1)

abbrev pub read_char : Reader → Option (ℕ × Reader)
read_char rd = read_number 1 rd

abbrev pub read_int : Reader → Option (ℕ × Reader)
read_int rd = read_number 4 rd

abbrev pub read_uint : Reader → Option (ℕ × Reader)
read_uint rd = read_number 4 rd

abbrev pub read_short : Reader → Option (ℕ × Reader)
read_short rd = read_number 2 rd

abbrev pub read_ushort : Reader → Option (ℕ × Reader)
read_ushort rd = read_number 2 rd

abbrev pub read_double : Reader → Option (ℕ × Reader)
read_double rd = read_number 8 rd

-- A length below 0 passes the assertion, and the copy then fails: `none` as well.
unfoldable pub read_string : Reader → Option (List ℕ × Reader)
read_string rd = read_int rd >>= λ (len, rd1). assert (ltb len (2 ^ 31)) >> read_bytes rd1 len

unfoldable pub read_binary : Reader → ℕ → Option (List ℕ × Reader)
read_binary rd len = read_int rd >>= λ (blen, rd1). assert (blen == len) >> read_bytes rd1 len

unfoldable pub read_socketid : Reader → Option (SocketId × Reader)
read_socketid rd = do
  (ip, rd1) ← read_uint rd
  (port, rd2) ← read_ushort rd1
  (localid, rd3) ← read_uint rd2
  (sid, rd4) ← read_uint rd3
  some (record { coordid = record { ip = ip; port = port; localid = localid }; sid = sid }, rd4)

unfoldable pub read_gaddr : Reader → Option (Gaddr × Reader)
read_gaddr rd = do
  (tid, rd1) ← read_int rd
  (lid, rd2) ← read_int rd1
  let a : Gaddr = record { tid = tid; lid = lid }
  some (a, record rd2 { naddrsread = if is_null a then rd2.naddrsread else suc rd2.naddrsread })

unfoldable pub read_end : Reader → Option (Unit {0})
read_end rd = assert (rd.size == rd.pos)
