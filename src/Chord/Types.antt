-- ===== src/Chord/Types.antt =====
-- The constants, records and messages of chord.h, and the state of a node from chord.c.
use nreduce.Base.{ℕ, Bool, ◌&&◌, ◌==◌, ◌^◌}
use nreduce.Endpoint.{EndpointId, Endpoint}

abbrev pub mbits : ℕ
mbits = 8

-- `1 << MBITS`
abbrev pub keyspace : ℕ
keyspace = 256

abbrev pub nsuccessors : ℕ
nsuccessors = mbits

-- `chordid` is an unsigned int.
abbrev pub chordid_mod : ℕ
chordid_mod = 2 ^ 32

pub record ChordNode : Type 0 where
  pub id : ℕ
  pub epid : EndpointId

-- INADDR_ANY is 0.
unfoldable pub chordnode_isnull : ChordNode → Bool
chordnode_isnull n = n.epid.ip == 0 && n.epid.port == 0

-- A `chordnode` of zero bytes.
abbrev pub null_node : ChordNode
null_node = record { id = 0; epid = record { ip = 0; port = 0; localid = 0 } }

-- The payload is 1 for a request to join, and the index of a finger otherwise.
pub record FindSuccessorMsg : Type 0 where
  pub id : ℕ
  pub sender : EndpointId
  pub hops : ℕ
  pub payload : ℕ

pub record GotSuccessorMsg : Type 0 where
  pub successor : ChordNode
  pub hops : ℕ
  pub payload : ℕ

pub record ReplyTableMsg : Type 0 where
  pub cn : ChordNode
  pub fingers : ℕ → ChordNode
  pub successors : ℕ → ChordNode
  pub linksok : Bool

pub record InsertMsg : Type 0 where
  pub predecessor : EndpointId
  pub successor : ChordNode

pub record SetNextMsg : Type 0 where
  pub new_successor : ChordNode
  pub old_successor : ChordNode

pub record ReplySucclistMsg : Type 0 where
  pub sender : EndpointId
  pub successors : ℕ → ChordNode

-- The tags that `chord_thread` reads and those that it sends, with their contents.
pub data ChordMsg : Type 0 where
  find_successor : FindSuccessorMsg → ChordMsg
  got_successor : GotSuccessorMsg → ChordMsg
  insert : InsertMsg → ChordMsg
  set_next : SetNextMsg → ChordMsg
  get_succlist : (sender : EndpointId) → ChordMsg
  reply_succlist : ReplySucclistMsg → ChordMsg
  stabilize : ChordMsg
  get_table : (sender : EndpointId) → ChordMsg
  reply_table : ReplyTableMsg → ChordMsg
  find_all : ChordMsg
  chord_started : (cn : ChordNode) → ChordMsg
  id_changed : (cn : ChordNode) → (oldid : ℕ) → ChordMsg
  joined : (cn : ChordNode) → ChordMsg

-- `struct chord`. The arrays are functions of the index: fingers[1 .. MBITS] and
-- successors[1 .. NSUCCESSORS] are used, and entry 0 is not. `shutdown` records a call of
-- `node_shutdown`.
pub record Chord : Type 0 where
  pub caller : EndpointId
  pub initial : EndpointId
  pub self : ChordNode
  pub fingers : ℕ → ChordNode
  pub successors : ℕ → ChordNode
  pub endpt : Endpoint ChordMsg
  pub shutdown : Bool

abbrev pub update : (ℕ → ChordNode) → ℕ → ChordNode → ℕ → ChordNode
update f i v j = elim (i == j) [ Bool.true ↦ v | Bool.false ↦ f j ]
