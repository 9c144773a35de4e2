-- ===== src/Runtime/Inflight/Tests.antt =====
-- Two tasks that exchange a message with an address.
use nreduce.Base.{false, ◌≡◌, refl, List, [], ◌∷◌, ◌++◌, some, arith}
use nreduce.Endpoint.{EndpointId}
use nreduce.Runtime.Wire.{Gaddr}
use nreduce.Runtime.Wire.Fields.{Arg, int, gaddr}
use nreduce.Runtime.Wire.Bytes.{to_bytes}
use nreduce.Runtime.Inflight.{Msg, Task, Net, net_send, net_ack}
use nreduce.Runtime.Inflight.Settled.{IsSendable, pending, net_send-Settled, Settled}
use nreduce.Runtime.Inflight.Reached.{
  Reach, start, sends, Delivers, Quiet, Reach-Settled, Reach-noted, Reach-drains,
}

abbrev epid : EndpointId
epid = record { ip = 1; port = 2; localid = 3 }

abbrev task : Task
task = record {
  inflight = [];
  naddrsread = 0;
  inflight_addrs = λ i. [];
  unack_msg_acount = λ i. [];
  endpt = record {
    epid = epid;
    inlinks = [];
    outlinks = [];
    mailbox = [];
    closed = false;
    sent = [];
  };
  idmap = λ i. epid;
}

abbrev empty : Net
empty = record { sender = task; receiver = task; messages = []; acks = [] }

empty-Reach : Reach 0 1 empty
empty-Reach = start empty refl refl refl refl refl refl refl

abbrev args : List Arg
args = int 7 ∷ gaddr (record { tid = 1; lid = 5 }) ∷ []

args-IsSendable : IsSendable 4 args
args-IsSendable = (
  (omega arith, ((omega arith, omega arith), tt)),
  omega arith,
  omega arith,
  unfold to_bytes in omega arith,
)

-- The state with the message on its way.
abbrev sent : (net : Net) × (net_send 1 empty 4 args ≡ some net) × Settled 1 net
sent = net_send-Settled 1 empty 4 args (Reach-Settled 0 1 empty empty-Reach) args-IsSendable

sent-Reach : Reach 0 1 sent.0
sent-Reach = sends empty sent.0 4 args empty-Reach args-IsSendable sent.1

Reach-noted_example :
    ((kept : List Gaddr) × (sent.0.sender.inflight_addrs 1 ≡ kept ++ pending sent.0.messages))
    × ((msg : Msg) (rest : List Msg)
        → sent.0.acks ≡ msg ∷ rest
        → (net' : Net) × (net_ack 1 sent.0 ≡ some net') × (net'.acks ≡ rest))
Reach-noted_example = Reach-noted 0 1 sent.0 sent-Reach

Reach-drains_example : (net' : Net) × Delivers 0 1 sent.0 net' × Quiet 1 net'
Reach-drains_example = Reach-drains 0 1 sent.0 sent-Reach
