-- ===== src/Runtime/Inflight.antt =====
-- The addresses that are on their way between tasks (`msg_send` and `msg_fsend` of
-- nreduce/runtime/data.c, `finish_address_reading` and `interpreter_ack` of
-- nreduce/runtime/interpreter.c). The arrays of a task are lists of their items.
pub mod Settled
pub mod Delivery
pub mod Reached
mod Tests
use nreduce.Base.{
  ℕ, zero, suc, ◌+◌, ◌^◌, Bool, true, false, ◌&&◌, List, [], ◌∷◌, ◌++◌, length, take, drop, map,
  get_elem?, Option, none, some, ◌>>=◌, ◌>>◌, assert, ◌==◌, ltb, leb, if◌then◌else◌, codes,
}
use nreduce.Endpoint.{EndpointId, Endpoint, Packet, endpoint_send}
use nreduce.Util.Arrays.{Array}
use nreduce.Runtime.Wire.{Gaddr, Reader, write_start, read_start, read_int, read_end}
use nreduce.Runtime.Wire.Fields.{Arg, int, write_vformat, format_of, field_of, read_fields}

-- What `endpoint_send` puts into a message for another task.
pub record Msg : Type 0 where
  pub tag : ℕ
  pub content : List ℕ
  pub size : ℕ

-- The part of `task` with the addresses.
pub record Task : Type 0 where
  pub inflight : List Gaddr
  pub naddrsread : ℕ
  pub inflight_addrs : ℕ → List Gaddr
  pub unack_msg_acount : ℕ → List ℕ
  pub endpt : Endpoint Msg
  pub idmap : ℕ → EndpointId

abbrev pub set_at : {A : Type 0} → (ℕ → A) → ℕ → A → ℕ → A
set_at f i a j = if i == j then a else f j

-- The addresses that were written since the last message belong to this one.
unfoldable pub note_inflight : Task → ℕ → List Gaddr → Task
note_inflight tsk dest [] = tsk
note_inflight tsk dest (a ∷ inflight) = record tsk {
  inflight_addrs = set_at tsk.inflight_addrs dest (tsk.inflight_addrs dest ++ a ∷ inflight);
  unack_msg_acount =
      set_at tsk.unack_msg_acount dest (tsk.unack_msg_acount dest ++ length (a ∷ inflight) ∷ []);
  inflight = [];
}

unfoldable pub msg_send : Task → ℕ → Msg → Task
msg_send tsk dest msg =
    let noted = note_inflight tsk dest tsk.inflight in
    record noted { endpt = endpoint_send noted.endpt (noted.idmap dest) (Packet.user msg) }

-- The task, and the message that it sends.
unfoldable pub msg_fsend : Task → ℕ → ℕ → List ℕ → List Arg → Option (Task × Msg)
msg_fsend tsk dest tag fmt args =
    write_vformat fmt args write_start tsk.inflight >>= λ (wr, inflight).
    let msg : Msg = record { tag = tag; content = wr.content; size = wr.nbytes } in
    some (msg_send (record tsk { inflight = inflight }) dest msg, msg)

-- MSG_ACK
abbrev pub msg_ack : ℕ
msg_ack = 3

unfoldable pub start_address_reading : Task → Option (Unit {0})
start_address_reading tsk = assert (0 == tsk.naddrsread)

-- The message that is sent, if there is one.
unfoldable pub finish_address_reading : Task → ℕ → ℕ → Option (Task × Option Msg)
finish_address_reading tsk from msgtype =
    let sent : Option (Task × Option Msg) =
      msg_fsend tsk from msg_ack (codes "iii") (int 1 ∷ int tsk.naddrsread ∷ int msgtype ∷ [])
      >>= λ (tsk1, msg). some (record tsk1 { naddrsread = 0 }, some msg) in
    if ltb 0 tsk.naddrsread then sent else some (record tsk { naddrsread = 0 }, none)

abbrev pub total : List ℕ → ℕ
total [] = 0
total (n ∷ ns) = n + total ns

-- `from` is the index that `get_idmap_index` finds for the sender; `none` is a failed assertion or the
-- call of `fatal`.
unfoldable pub interpreter_ack : Task → ℕ → Msg → Option Task
interpreter_ack tsk from msg = do
  (count, rd1) ← read_int (read_start tsk.naddrsread msg.content msg.size)
  (naddrs, rd2) ← read_int rd1
  (fromtype, rd3) ← read_int rd2
  assert (ltb 0 naddrs && ltb naddrs (2 ^ 31))
  assert (leb count (length (tsk.unack_msg_acount from)))
  assert (count == 1)
  first ← get_elem? (tsk.unack_msg_acount from) 0
  assert (naddrs == first)
  let remove = total (take count (tsk.unack_msg_acount from))
  assert (leb remove (length (tsk.inflight_addrs from)))
  some (record tsk {
    unack_msg_acount = set_at tsk.unack_msg_acount from (drop count (tsk.unack_msg_acount from));
    inflight_addrs = set_at tsk.inflight_addrs from (drop remove (tsk.inflight_addrs from));
  })

-- Two tasks: the sender, whose messages go to the task with the index `to`, and the receiver, which
-- acknowledges them to the task with the index `from`; and what is on its way in each direction, in
-- the order in which it was sent.
pub record Net : Type 0 where
  pub sender : Task
  pub receiver : Task
  pub messages : List (List Arg × Msg)
  pub acks : List Msg

-- The sender writes and sends a message.
unfoldable pub net_send : ℕ → Net → ℕ → List Arg → Option Net
net_send to net tag args =
    msg_fsend net.sender to tag (map format_of args) args >>= λ (sender, msg).
    some (record net { sender = sender; messages = net.messages ++ (args, msg) ∷ [] })

abbrev pub add_ack : List Msg → Option Msg → List Msg
add_ack acks none = acks
add_ack acks (some msg) = acks ++ msg ∷ []

-- The receiver reads the next message to its end, as a handler does.
unfoldable pub receive : ℕ → Task → List Arg → Msg → Option (Task × Option Msg)
receive from tsk args msg = do
  start_address_reading tsk
  (read, rd) ← read_fields (map field_of args) (read_start tsk.naddrsread msg.content msg.size)
  read_end rd
  finish_address_reading (record tsk { naddrsread = rd.naddrsread }) from msg.tag

unfoldable pub receive_next : ℕ → Net → List (List Arg × Msg) → Option Net
receive_next from net [] = none
receive_next from net ((args, msg) ∷ rest) =
    receive from net.receiver args msg >>= λ (receiver, ack).
    some (record net { receiver = receiver; messages = rest; acks = add_ack net.acks ack })

abbrev pub net_receive : ℕ → Net → Option Net
net_receive from net = receive_next from net net.messages

-- The sender takes the next acknowledgement.
unfoldable pub ack_next : ℕ → Net → List Msg → Option Net
ack_next to net [] = none
ack_next to net (msg ∷ rest) = interpreter_ack net.sender to msg >>= λ sender.
    some (record net { sender = sender; acks = rest })

abbrev pub net_ack : ℕ → Net → Option Net
net_ack to net = ack_next to net net.acks
