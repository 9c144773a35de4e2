-- ===== src/Chord/Handlers.antt =====
-- The message handlers of chord.c, and the loop of `chord_thread` as a step. A result `none` is a
-- failed assertion. The numbers `random` are the values that `rand` returns.
use nreduce.Base.{
  ℕ, zero, suc, ◌+◌, ◌-◌, ◌%◌, ◌^◌, true, not, ◌&&◌, ◌||◌, Option, none, some, ◌==◌, ltb, leb,
  if◌then◌else◌, ◌>>=◌, ◌>>◌, assert,
}
use nreduce.Endpoint.{
  EndpointId, endpointid_equals, Packet, link, unlink, endpoint_exit, kill, user, endpoint_send,
}
use nreduce.Chord.Types.{
  ChordNode, chordnode_isnull, null_node, FindSuccessorMsg, GotSuccessorMsg, InsertMsg, SetNextMsg,
  ReplySucclistMsg, ChordMsg, find_successor, got_successor, insert, set_next, get_succlist,
  reply_succlist, stabilize, get_table, reply_table, find_all, chord_started, id_changed, joined,
  Chord, mbits, keyspace, nsuccessors, chordid_mod,
}
use nreduce.Chord.Interval.{inrange_open_closed}
use nreduce.Chord.Table.{
  closest_preceding_finger, check_links, set_finger, set_successor, chord_clear_tables,
}

unfoldable pub send : Chord → EndpointId → ChordMsg → Chord
send crd dest m = record crd { endpt = endpoint_send crd.endpt dest (user m) }

-- The node that joined is not read: the message holds the sender itself.
unfoldable pub chord_notify_joined : Chord → ChordNode → Chord
chord_notify_joined crd newnode =
    if not (crd.caller.localid == 0) then send crd crd.caller (joined crd.self) else crd

unfoldable pub chord_join : Chord → Option Chord
chord_join crd = chord_clear_tables crd >>= λ crd'.
    if crd'.initial.localid == 0
    then (set_successor crd' crd'.self >>= λ alone. some (chord_notify_joined alone alone.self))
    else some (
        send crd' crd'.initial (
          find_successor
            (record { id = crd'.self.id; sender = crd'.self.epid; hops = 0; payload = 1 })))

-- The answer to a request whose identifier lies between this node and its successor.
unfoldable pub answer : Chord → FindSuccessorMsg → ChordMsg
answer crd m =
    let successor = crd.fingers 1 in
    if m.payload == 1
    then insert (record { predecessor = crd.self.epid; successor = successor })
    else got_successor (record { successor = successor; hops = m.hops; payload = m.payload })

unfoldable pub chord_find_successor : Chord → FindSuccessorMsg → Option Chord
chord_find_successor crd m = do
  assert (not (chordnode_isnull (crd.fingers 1)))
  some (
      if inrange_open_closed m.id crd.self.id (crd.fingers 1).id
      then send crd m.sender (answer crd m)
      else send crd (closest_preceding_finger crd m.id).epid
          (find_successor (record m { hops = m.hops + 1 })))

unfoldable pub duplicate_detected : Chord → ChordNode → ℕ → Option Chord
duplicate_detected crd existing random =
    let crd' = record crd { self = record { id = random % keyspace; epid = crd.self.epid } } in
    chord_join (
      if not (crd'.caller.localid == 0)
      then send crd' crd'.caller (id_changed crd'.self crd.self.id)
      else crd')

unfoldable pub chord_insert : Chord → InsertMsg → ℕ → Option Chord
chord_insert crd m random =
    if m.successor.id == crd.self.id
    then duplicate_detected crd m.successor random
    else (set_successor crd m.successor >>= λ crd'. some (
        send crd' m.predecessor
          (set_next (record { new_successor = crd'.self; old_successor = m.successor }))))

unfoldable pub chord_set_next : Chord → SetNextMsg → Option Chord
chord_set_next crd m =
    let successor = crd.fingers 1 in
    if not (endpointid_equals m.old_successor.epid successor.epid)
    then (do
      assert (not (m.old_successor.id == successor.id))
      assert (not (m.new_successor.id == crd.self.id))
      some (
          send crd m.new_successor.epid (
            insert (
              if inrange_open_closed m.new_successor.id crd.self.id successor.id
              then record { predecessor = crd.self.epid; successor = successor }
              else record { predecessor = successor.epid; successor = m.old_successor }))))
    else (do
      assert (m.old_successor.id == successor.id)
      crd' ← set_successor crd m.new_successor
      some (chord_notify_joined crd' m.new_successor))

-- Entry 0 of the array that is sent is not written by the code.
unfoldable pub chord_get_succlist : Chord → EndpointId → Chord
chord_get_succlist crd sender = send crd sender (
    reply_succlist (record {
      sender = crd.self.epid;
      successors = λ i. if i == 1 then crd.fingers 1 else crd.successors (i - 1);
    }))

unfoldable pub chord_reply_succlist : Chord → ReplySucclistMsg → Chord
chord_reply_succlist crd m =
    if not (endpointid_equals m.sender (crd.fingers 1).epid)
    then crd
    else record crd { successors = m.successors }

unfoldable pub chord_got_successor : Chord → GotSuccessorMsg → Option Chord
chord_got_successor crd m = do
  assert (ltb 1 m.payload)
  assert (not (chordnode_isnull m.successor))
  assert (not (m.successor.id == crd.self.id) || endpointid_equals m.successor.epid crd.self.epid)
  set_finger crd m.payload m.successor

-- The finger to update, and the identifier that it should follow.
abbrev pub finger_of : ℕ → ℕ
finger_of random = 2 + random % (mbits - 2)

abbrev pub finger_target : ℕ → ℕ → ℕ
finger_target id k = (id + 2 ^ (k - 1)) % chordid_mod

abbrev pub finger_request : Chord → ℕ → FindSuccessorMsg
finger_request crd random = record {
  id = finger_target crd.self.id (finger_of random);
  sender = crd.self.epid;
  hops = 0;
  payload = finger_of random;
}

unfoldable pub chord_stabilize : Chord → ℕ → Chord
chord_stabilize crd random =
    let successor = crd.fingers 1 in
    if chordnode_isnull successor
    then crd
    else send (send crd successor.epid (get_succlist crd.self.epid)) crd.self.epid
        (find_successor (finger_request crd random))

unfoldable pub chord_get_table : Chord → EndpointId → Chord
chord_get_table crd sender = send crd sender (
    reply_table (record {
      cn = crd.self;
      fingers = crd.fingers;
      successors = crd.successors;
      linksok = check_links crd;
    }))

-- `memmove(&successors[1],&successors[2],(NSUCCESSORS-1)*sizeof(chordnode))`
abbrev pub shift_successors : (ℕ → ChordNode) → ℕ → ChordNode
shift_successors successors i =
    if leb 1 i && ltb i nsuccessors then successors (suc i) else successors i

-- The body of the loop that empties the fingers of an endpoint, and `n` rounds of it from index `i`
-- on.
abbrev pub drop_one : Chord → EndpointId → ℕ → Option Chord
drop_one crd epid i =
    if endpointid_equals epid (crd.fingers i).epid then set_finger crd i null_node else some crd

unfoldable pub drop_fingers : Chord → EndpointId → ℕ → ℕ → Option Chord
drop_fingers crd epid i zero = some crd
drop_fingers crd epid i (suc n) = drop_one crd epid i >>= λ crd'. drop_fingers crd' epid (suc i) n

unfoldable pub chord_endpoint_exit : Chord → EndpointId → Option Chord
chord_endpoint_exit crd epid =
    if endpointid_equals epid (crd.fingers 1).epid
    then (if not (chordnode_isnull (crd.successors 1))
        then (set_finger crd 1 (crd.successors 1) >>= λ crd'.
            drop_fingers (record crd' { successors = shift_successors crd'.successors }) epid 2
              (mbits - 1))
        else some (record crd { shutdown = true }))
    else drop_fingers crd epid 2 (mbits - 1)

-- What one round of the loop of `chord_thread` leaves: the node goes on, it stops, or the process
-- aborts (an assertion, or a message with a tag that the loop does not know).
pub data Outcome : Type 0 where
  running : Chord → Outcome
  stopped : Chord → Outcome
  aborted : Outcome

abbrev pub outcome : Option Chord → Outcome
outcome none = aborted
outcome (some crd) = running crd

unfoldable pub handle : Chord → ChordMsg → ℕ → Outcome
handle crd (find_successor m) random = outcome (chord_find_successor crd m)
handle crd (insert m) random = outcome (chord_insert crd m random)
handle crd (set_next m) random = outcome (chord_set_next crd m)
handle crd (get_succlist sender) random = running (chord_get_succlist crd sender)
handle crd (reply_succlist m) random = running (chord_reply_succlist crd m)
handle crd (got_successor m) random = outcome (chord_got_successor crd m)
handle crd stabilize random = running (chord_stabilize crd random)
handle crd (get_table sender) random = running (chord_get_table crd sender)
handle crd find_all random = running crd
handle crd _ random = aborted

unfoldable pub chord_step : Chord → Packet ChordMsg → ℕ → Outcome
chord_step crd (endpoint_exit epid reason) random = outcome (chord_endpoint_exit crd epid)
chord_step crd kill random = stopped crd
chord_step crd (user m) random = handle crd m random
chord_step crd (link from) random = aborted
chord_step crd (unlink from) random = aborted

-- `chord_thread` up to its loop; the stabilizer is a thread of its own.
unfoldable pub chord_start : Chord → ℕ → Option Chord
chord_start crd random =
    let crd' = record crd { self = record { id = random % keyspace; epid = crd.endpt.epid } } in
    chord_join (
      if not (crd'.caller.localid == 0)
      then send crd' crd'.caller (chord_started crd'.self)
      else crd')
