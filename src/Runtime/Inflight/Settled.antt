-- ===== src/Runtime/Inflight/Settled.antt =====
-- Two tasks that exchange messages with addresses: what the sender has noted, and what is on its way.
use nreduce.Base.{
  ◌≤◌, ℕ, ◌+◌, ◌^◌, ◌<◌, ◌≡◌, refl, sym, ap, subst, ◌∙◌, List, [], ◌∷◌, ◌++◌, length, map, Option,
  none, some, >>=-eq-some, ltb, arith, Bool-cases, ◌⊎◌, inl, inr, ==-refl,
}
use mathlib.Core.List.{append-nil, append_assoc}
use nreduce.Runtime.Wire.{Gaddr, Reader, write_start, read_start, read_int, read_end}
use nreduce.Runtime.Wire.Fields.{
  Arg, int, write_vformat, format_of, field_of, Field, an_int, read_field, read_fields, AllFit,
  addresses,
}
use nreduce.Runtime.Wire.Bytes.{to_bytes}
use nreduce.Util.Arrays.{max_size}
use nreduce.Runtime.Wire.Roundtrip.{all_encoded, noted, read_fields-write_vformat}
use nreduce.Runtime.Inflight.{
  Msg, Task, note_inflight, msg_send, msg_fsend, msg_ack, finish_address_reading, total, Net,
  net_send,
}

-- A message is read by its fields to its end, and counts its addresses.
abbrev pub IsReadable : List Arg → Msg → Type 0
IsReadable args msg =
    (n : ℕ)
    → (rd : Reader) × (read_fields (map field_of args) (read_start n msg.content msg.size)
        ≡ some (args, rd))
      × (read_end rd ≡ some tt)
      × (rd.naddrsread ≡ n + length (addresses args))

-- An acknowledgement of `k` addresses.
abbrev pub IsAck : Msg → ℕ → Type 0
IsAck msg k =
    (n : ℕ)
    → (rd1 : Reader) × (rd2 : Reader) × (t : ℕ) × (rd3 : Reader) × (read_int
          (read_start n msg.content msg.size)
        ≡ some (1, rd1))
      × (read_int rd1 ≡ some (k, rd2))
      × (read_int rd2 ≡ some (t, rd3))

-- The addresses of a message, as the sender has noted them.
abbrev pub carried : List Arg → List Gaddr
carried args = noted (addresses args) []

abbrev pub count_of : List Gaddr → List ℕ
count_of [] = []
count_of (a ∷ addrs) = length (a ∷ addrs) ∷ []

unfoldable pub counts : List (List Arg × Msg) → List ℕ
counts [] = []
counts ((args, msg) ∷ rest) = count_of (carried args) ++ counts rest

abbrev pub pending : List (List Arg × Msg) → List Gaddr
pending [] = []
pending ((args, msg) ∷ rest) = carried args ++ pending rest

-- A message that a task may send: the arguments fit their types, an `int` can count the addresses,
-- and the bytes are not more than an array takes without an overflow.
abbrev pub IsSendable : ℕ → List Arg → Type 0
IsSendable tag args =
    AllFit args
    × (tag < 2 ^ 32)
    × (length (addresses args) < 2 ^ 31)
    × (length (all_encoded args) ≤ max_size)

abbrev pub AreReadable : List (List Arg × Msg) → Type 0
AreReadable [] = Unit
AreReadable ((args, msg) ∷ rest) =
    (IsReadable args msg × IsSendable msg.tag args) × AreReadable rest

abbrev pub AreAcks : List Msg → List ℕ → Type 0
AreAcks [] [] = Unit
AreAcks [] (k ∷ ks) = ⊥
AreAcks (m ∷ acks) [] = ⊥
AreAcks (m ∷ acks) (k ∷ ks) = (IsAck m k × (0 < k) × (k < 2 ^ 31)) × AreAcks acks ks

-- What the sender has noted are the addresses in messages that are read but not acknowledged (`kept`,
-- with one count in `waiting` for each acknowledgement on its way), and then those in messages on
-- their way.
pub record Settled (to : ℕ) (net : Net) : Type 0 where
  pub sender_idle : net.sender.inflight ≡ []
  pub receiver_idle : net.receiver.inflight ≡ []
  pub receiver_read : net.receiver.naddrsread ≡ 0
  pub readable : AreReadable net.messages
  pub kept : List Gaddr
  pub waiting : List ℕ
  pub acks : AreAcks net.acks waiting
  pub size : length kept ≡ total waiting
  pub unacknowledged : net.sender.unack_msg_acount to ≡ waiting ++ counts net.messages
  pub addrs : net.sender.inflight_addrs to ≡ kept ++ pending net.messages

counts-append :
    (ms : List (List Arg × Msg)) (args : List Arg) (msg : Msg)
    → counts (ms ++ (args, msg) ∷ []) ≡ counts ms ++ count_of (carried args)
unfolding counts
counts-append [] args msg = append-nil (count_of (carried args))
counts-append ((a, m) ∷ ms) args msg =
    ap (λ (l : List ℕ). count_of (carried a) ++ l) (counts-append ms args msg)
    ∙ sym (append_assoc (count_of (carried a)) (counts ms) (count_of (carried args)))

pending-append :
    (ms : List (List Arg × Msg)) (args : List Arg) (msg : Msg)
    → pending (ms ++ (args, msg) ∷ []) ≡ pending ms ++ carried args
pending-append [] args msg = append-nil (carried args)
pending-append ((a, m) ∷ ms) args msg =
    ap (λ (l : List Gaddr). carried a ++ l) (pending-append ms args msg)
    ∙ sym (append_assoc (carried a) (pending ms) (carried args))

AreReadable-append :
    (ms : List (List Arg × Msg)) (args : List Arg) (msg : Msg)
    → AreReadable ms
    → IsReadable args msg
    → IsSendable msg.tag args
    → AreReadable (ms ++ (args, msg) ∷ [])
AreReadable-append [] args msg r i s = ((i, s), tt)
AreReadable-append ((a, m) ∷ ms) args msg r i s = (r.0, AreReadable-append ms args msg r.1 i s)

pub AreAcks-append :
    (acks : List Msg) (ks : List ℕ) (m : Msg) (k : ℕ)
    → AreAcks acks ks
    → IsAck m k
    → 0 < k
    → k < 2 ^ 31
    → AreAcks (acks ++ m ∷ []) (ks ++ k ∷ [])
AreAcks-append [] [] m k a i p b = ((i, p, b), tt)
AreAcks-append [] (j ∷ ks) m k a i p b = absurd a
AreAcks-append (n ∷ acks) [] m k a i p b = absurd a
AreAcks-append (n ∷ acks) (j ∷ ks) m k a i p b = (a.0, AreAcks-append acks ks m k a.1 i p b)

-- What a task has noted after a message with the addresses `inflight`.
record Noted (tsk : Task) (dest : ℕ) (inflight : List Gaddr) (tsk' : Task) : Type 0 where
  idle : tsk'.inflight ≡ []
  read : tsk'.naddrsread ≡ tsk.naddrsread
  unacknowledged : tsk'.unack_msg_acount dest ≡ tsk.unack_msg_acount dest ++ count_of inflight
  addrs : tsk'.inflight_addrs dest ≡ tsk.inflight_addrs dest ++ inflight

msg_send-Noted :
    (tsk : Task) (dest : ℕ) (msg : Msg) (inflight : List Gaddr)
    → Noted tsk dest inflight (msg_send (record tsk { inflight = inflight }) dest msg)
unfolding msg_send note_inflight
msg_send-Noted tsk dest msg [] = record {
  idle = refl;
  read = refl;
  unacknowledged = sym (append-nil (tsk.unack_msg_acount dest));
  addrs = sym (append-nil (tsk.inflight_addrs dest));
}
msg_send-Noted tsk dest msg (a ∷ inflight) = record {
  idle = refl;
  read = refl;
  unacknowledged = rw (==-refl dest dest refl) refl;
  addrs = rw (==-refl dest dest refl) refl;
}

-- A message is sent, readable, and its addresses are noted.
record Sent (tsk : Task) (dest tag : ℕ) (args : List Arg) (r : Option (Task × Msg)) : Type 0 where
  tsk' : Task
  msg : Msg
  result : r ≡ some (tsk', msg)
  tagged : msg.tag ≡ tag
  readable : IsReadable args msg
  noted_addrs : Noted tsk dest (carried args) tsk'

msg_fsend-Sent :
    (tsk : Task) (dest tag : ℕ) (args : List Arg)
    → tsk.inflight ≡ []
    → AllFit args
    → length (all_encoded args) ≤ max_size
    → Sent tsk dest tag args (msg_fsend tsk dest tag (map format_of args) args)
unfolding msg_fsend
msg_fsend-Sent tsk dest tag args idle fits short =
    let (wr, e, reads) = read_fields-write_vformat args [] fits short in
    let e1 : write_vformat (map format_of args) args write_start tsk.inflight
        ≡ some (wr, carried args) =
      subst
        (λ (l : List Gaddr).
          write_vformat (map format_of args) args write_start l ≡ some (wr, carried args))
        (sym idle) e in
    let msg : Msg = record { tag = tag; content = wr.content; size = wr.nbytes } in
    record {
      tsk' = msg_send (record tsk { inflight = carried args }) dest msg;
      msg = msg;
      result = rw e1 refl;
      tagged = refl;
      readable = reads;
      noted_addrs = msg_send-Noted tsk dest msg (carried args);
    }

read_fields-int :
    (fs : List Field) (rd : Reader) (v : ℕ) (args : List Arg) (rd' : Reader)
    → read_fields (an_int ∷ fs) rd ≡ some (int v ∷ args, rd')
    → (rd1 : Reader) × (read_int rd ≡ some (v, rd1)) × (read_fields fs rd1 ≡ some (args, rd'))
unfolding read_fields read_field
read_fields-int fs rd v args rd' h =
    let ((a, rd1), e1, h1) = >>=-eq-some (read_field an_int rd) _ h in
    let ((w, rd2), e2, h2) = >>=-eq-some (read_int rd) _ e1 in
    let ((args1, rd3), e3, h3) = >>=-eq-some (read_fields fs rd1) _ h1 in
    let same : w ≡ v = cc in
    let next : rd2 ≡ rd1 = cc in
    let others : args1 ≡ args = cc in let after : rd3 ≡ rd' = cc in (rd1, cc, cc)

-- Three integers are an acknowledgement.
read_fields-IsAck :
    (k t : ℕ) (msg : Msg) → IsReadable (int 1 ∷ int k ∷ int t ∷ []) msg → IsAck msg k
read_fields-IsAck k t msg r n =
    let (rd, e, ended, counted) = r n in
    let (rd1, f1, e1) =
      read_fields-int (an_int ∷ an_int ∷ []) (read_start n msg.content msg.size) 1
        (int k ∷ int t ∷ []) rd e in
    let (rd2, f2, e2) = read_fields-int (an_int ∷ []) rd1 k (int t ∷ []) rd e1 in
    let (rd3, f3, e3) = read_fields-int [] rd2 t [] rd e2 in (rd1, rd2, t, rd3, f1, f2, f3)

-- The receiver acknowledges as many addresses as the message carries.
pub finish-settles :
    (tsk : Task) (from tag k : ℕ)
    → tsk.inflight ≡ []
    → tsk.naddrsread ≡ k
    → k < 2 ^ 31
    → tag < 2 ^ 32
    → (tsk' : Task) × (ack : Option Msg) × (finish_address_reading tsk from tag ≡ some (tsk', ack))
      × (tsk'.inflight ≡ [])
      × (tsk'.naddrsread ≡ 0)
      × (((k ≡ 0) × (ack ≡ none)) ⊎ ((0 < k) × ((m : Msg) × (ack ≡ some m) × IsAck m k)))
unfolding finish_address_reading
finish-settles tsk from tag k idle e less small = elim (Bool-cases (ltb 0 tsk.naddrsread)) [
  | inr nothing ↦ (
    record tsk { naddrsread = 0 },
    none,
    rw nothing refl,
    idle,
    refl,
    inl (ground (arith, e), refl),
  )
  | inl some_read ↦
      let a =
        msg_fsend-Sent tsk from msg_ack (int 1 ∷ int tsk.naddrsread ∷ int tag ∷ []) idle
          (omega arith, (omega (arith, e), (small, tt))) (unfold to_bytes in omega arith) in
      (
        record a.tsk' { naddrsread = 0 },
        some a.msg,
        rw (some_read, a.result) refl,
        a.noted_addrs.idle,
        refl,
        inr (
          ground (arith, e),
          (
            a.msg,
            refl,
            subst (IsAck a.msg) e (read_fields-IsAck tsk.naddrsread tag a.msg a.readable),
          ),
        ),
      )
]

pub length-noted :
    (addrs inflight : List Gaddr) → length (noted addrs inflight) ≡ length addrs + length inflight
length-noted [] inflight = omega arith
length-noted (a ∷ addrs) inflight = omega (arith, length-noted addrs (a ∷ inflight))

-- Sending a message that may be sent succeeds.
pub net_send-Settled :
    (to : ℕ) (net : Net) (tag : ℕ) (args : List Arg)
    → Settled to net
    → IsSendable tag args
    → (net' : Net) × (net_send to net tag args ≡ some net') × Settled to net'
unfolding net_send
net_send-Settled to net tag args s (fits, small, few, short) =
    let a = msg_fsend-Sent net.sender to tag args s.sender_idle fits short in
    let n = a.noted_addrs in
    (
      record net { sender = a.tsk'; messages = net.messages ++ (args, a.msg) ∷ [] },
      rw a.result refl,
      record {
        sender_idle = n.idle;
        receiver_idle = s.receiver_idle;
        receiver_read = s.receiver_read;
        readable =
            AreReadable-append net.messages args a.msg s.readable a.readable
              (fits, subst (λ (t : ℕ). t < 2 ^ 32) (sym a.tagged) small, few, short);
        kept = s.kept;
        waiting = s.waiting;
        acks = s.acks;
        size = s.size;
        unacknowledged =
            n.unacknowledged
            ∙ ap (λ (l : List ℕ). l ++ count_of (carried args)) s.unacknowledged
            ∙ append_assoc s.waiting (counts net.messages) (count_of (carried args))
            ∙ ap (λ (l : List ℕ). s.waiting ++ l) (sym (counts-append net.messages args a.msg));
        addrs =
            n.addrs
            ∙ ap (λ (l : List Gaddr). l ++ carried args) s.addrs
            ∙ append_assoc s.kept (pending net.messages) (carried args)
            ∙ ap (λ (l : List Gaddr). s.kept ++ l) (sym (pending-append net.messages args a.msg));
      },
    )
