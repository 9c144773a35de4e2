-- ===== src/Chord/Lookup/Stabilize.antt =====
-- The requests by which a node keeps its fingers up to date.
use nreduce.Endpoint.{endpointid_isnull, endpoint_send}
use nreduce.Chord.Links.Balance.{set_finger-Changed}
use nreduce.Chord.Success.{set_finger-some, LastSent}
use nreduce.Base.{
  ℕ, zero, suc, ◌+◌, ◌-◌, ◌^◌, ◌≤◌, ◌<◌, true, false, ◌≡◌, some, arith, if◌then◌else◌, Bool-cases,
  inl, inr, leb, ltb, ◌==◌, ◌≢◌, refl,
}
use nreduce.Chord.Types.{
  Chord, chordnode_isnull, find_successor, keyspace, mbits, GotSuccessorMsg, got_successor,
}
use nreduce.Chord.Interval.{inrange_open_closed, inrange_open_closed-beyond}
use nreduce.Chord.Table.{closest_preceding_finger}
use nreduce.Chord.Handlers.{
  chord_find_successor, chord_got_successor, answer, send, finger_of, finger_target, finger_request,
}
use nreduce.Chord.Lookup.Progress.{IsInRange}

-- The round of a request for a finger: the message that the answering node sends, and what the node
-- that asked makes of it.
pub record Refreshed (crd other : Chord) (random hops : ℕ) : Type 0 where
  pub answered : Chord
  pub answers :
      chord_find_successor other (record (finger_request crd random) { hops = hops })
      ≡ some answered
  pub reply : GotSuccessorMsg
  pub sent : LastSent answered crd.self.epid (got_successor reply)
  pub crd' : Chord
  pub takes : chord_got_successor crd reply ≡ some crd'
  pub index_bounds : (2 ≤ reply.payload) × (reply.payload < mbits)
  pub here : crd'.fingers reply.payload ≡ other.fingers 1
  pub elsewhere : (j : ℕ) → reply.payload ≢ j → crd'.fingers j ≡ crd.fingers j
  pub same_self : crd'.self ≡ crd.self

-- A node whose arc holds the identifier that a request for a finger asks for answers it, after
-- however many hops, and the node that asked then takes the answer: one of its fingers 2 to 7
-- becomes the successor of the node that answered, and its other fingers stay. The successor must be
-- a proper node with another identifier than the node that asked.
pub chord_got_successor-answer :
    (crd other : Chord) (random hops : ℕ)
    → chordnode_isnull (other.fingers 1) ≡ false
    → endpointid_isnull (other.fingers 1).epid ≡ false
    → ((other.fingers 1).id == crd.self.id) ≡ false
    → inrange_open_closed
        (finger_target crd.self.id (finger_of random))
        other.self.id
        (other.fingers 1).id
      ≡ true
    → Refreshed crd other random hops
unfolding chord_find_successor chord_got_successor answer send endpoint_send
chord_got_successor-answer crd other random hops live proper apart within =
    let reply : GotSuccessorMsg = record {
      successor = other.fingers 1;
      hops = hops;
      payload = finger_of random;
    } in
    let payload : (finger_of random == 1) ≡ false = ground arith in
    let large : ltb 1 (finger_of random) ≡ true = ground arith in
    let (crd', set) =
      set_finger-some crd (finger_of random) (other.fingers 1) (omega arith) (inr proper) in
    let ch = set_finger-Changed crd (finger_of random) (other.fingers 1) crd' set in
    record {
      answered = send other crd.self.epid (got_successor reply);
      answers = rw (live, within, payload) refl;
      reply = reply;
      sent = (other.endpt.sent, refl);
      crd' = crd';
      takes = rw (large, live, apart) set;
      index_bounds = (omega arith, omega arith);
      here = ch.here;
      elsewhere = ch.elsewhere;
      same_self = ch.self;
    }

pow-lt : (k : ℕ) → 2 ≤ k → k < mbits → (2 ≤ 2 ^ (k - 1)) × (2 ^ (k - 1) ≤ 64)
pow-lt zero l u = omega arith
pow-lt (suc zero) l u = omega arith
pow-lt (suc (suc zero)) l u = omega arith
pow-lt (suc (suc (suc zero))) l u = omega arith
pow-lt (suc (suc (suc (suc zero)))) l u = omega arith
pow-lt (suc (suc (suc (suc (suc zero))))) l u = omega arith
pow-lt (suc (suc (suc (suc (suc (suc zero)))))) l u = omega arith
pow-lt (suc (suc (suc (suc (suc (suc (suc zero))))))) l u = omega arith
pow-lt (suc (suc (suc (suc (suc (suc (suc (suc k)))))))) l u = absurd (omega arith)

-- The identifier asked for is not reduced to the key space.
target-eq :
    (crd : Chord) (random : ℕ)
    → crd.self.id < keyspace
    → finger_target crd.self.id (finger_of random) ≡ crd.self.id + 2 ^ (finger_of random - 1)
target-eq crd random h = omega (arith, pow-lt (finger_of random) (omega arith) (omega arith))

le→leb : (a b : ℕ) → a ≤ b → leb a b ≡ true
le→leb a b h = ground arith

not-le→leb : (a b : ℕ) → ¬ (a ≤ b) → leb a b ≡ false
not-le→leb a b h = ground arith

-- A request for a finger that lies past the end of the key space is not reduced to the key space: a
-- node whose table lies in the key space and that has a successor answers it exactly if that
-- successor is not above the node itself, and forwards it otherwise.
pub stabilize_request_beyond :
    (crd other : Chord) (random : ℕ)
    → IsInRange crd
    → IsInRange other
    → chordnode_isnull (other.fingers 1) ≡ false
    → keyspace ≤ crd.self.id + 2 ^ (finger_of random - 1)
    → chord_find_successor other (finger_request crd random)
      ≡ some (
          if leb (other.fingers 1).id other.self.id
          then send other crd.self.epid (answer other (finger_request crd random))
          else send other
              (closest_preceding_finger other (finger_target crd.self.id (finger_of random))).epid
              (find_successor (record (finger_request crd random) { hops = 1 })))
unfolding chord_find_successor
stabilize_request_beyond crd other random rc ro live big =
    let large : keyspace ≤ finger_target crd.self.id (finger_of random) =
      rw (target-eq crd random rc.self_lt) big in
    let arc =
      inrange_open_closed-beyond (finger_target crd.self.id (finger_of random)) other.self.id
        (other.fingers 1).id large ro.self_lt (ro.finger_lt 1) in
    elim (Bool-cases (
      inrange_open_closed (finger_target crd.self.id (finger_of random)) other.self.id
        (other.fingers 1).id)) [
          | inl hit ↦ rw (live, hit, le→leb _ _ (arc.0 hit))
          | inr miss ↦
              rw (live, miss, not-le→leb (other.fingers 1).id other.self.id (λ h. cc (arc.1 h)))
        ]
