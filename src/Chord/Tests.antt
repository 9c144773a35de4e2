-- ===== src/Chord/Tests.antt =====
-- Runs of the handlers, and the theorems about lookups and links at concrete rings.
mod Failover
mod Stabilizer
use nreduce.Chord.Links.Check.{IsProper, LinksRight, check_links-Reach, check_links_iff}
use nreduce.Chord.Links.Balance.{exits}
use nreduce.Chord.Links.Turn.{Expected}
use nreduce.Chord.Links.Life.{IsFresh, begin, Settled, Reach-Settled}
use nreduce.Chord.Lookup.Stabilize.{stabilize_request_beyond, Refreshed, chord_got_successor-answer}
use nreduce.Chord.Table.{
  closest_preceding_finger, chord_clear_tables, clear_from, set_finger, set_noderef, unlink_old,
  link_new, count_instances, count_from, set_successor, check_links,
}
use nreduce.Base.{
  ◌↔◌, ℕ, ◌+◌, ◌-◌, ◌%◌, ◌≤◌, ◌<◌, true, false, ◌≡◌, refl, Option, some, none, arith, if◌then◌else◌,
  inr, ◌⊎◌, ◌==◌, [], ◌∷◌,
}
use nreduce.Endpoint.{
  EndpointId, Endpoint, user, endpointid_equals, endpoint_has_link, endpoint_send, endpoint_link,
  endpoint_link_locked,
}
use nreduce.Chord.Types.{
  Chord, ChordNode, ChordMsg, chordnode_isnull, null_node, FindSuccessorMsg, find_successor,
  got_successor, keyspace,
}
use nreduce.Chord.Interval.{inrange_open_closed, inrange_open}
use nreduce.Chord.Handlers.{
  send, answer, finger_of, finger_request, chord_find_successor, chord_start, chord_join,
  chord_notify_joined,
}
use nreduce.Chord.Lookup.Progress.{IsInRange, Hop, find_successor-Hop}
use nreduce.Chord.Lookup.Route.{route, IsRing, IsAnswered, route_answers, lookup_correct}

-- Three nodes with identifiers 10, 80 and 200 on a ring, each with its successor alone.
abbrev pub place : ℕ → EndpointId
place n = record { ip = 1; port = 2000; localid = n }

abbrev pub node_at : ℕ → ℕ → ChordNode
node_at n id = record { id = id; epid = place n }

abbrev pub idle_endpoint : ℕ → Endpoint ChordMsg
idle_endpoint n = record {
  epid = place n;
  inlinks = [];
  outlinks = [];
  mailbox = [];
  closed = false;
  sent = [];
}

abbrev pub state_of : ChordNode → ChordNode → Chord
state_of self successor = record {
  caller = place 0;
  initial = place 0;
  self = self;
  fingers = λ i. if i == 1 then successor else null_node;
  successors = λ _. null_node;
  endpt = idle_endpoint self.epid.localid;
  shutdown = false;
}

abbrev pub low : ChordNode
low = node_at 1 10

abbrev pub middle : ChordNode
middle = node_at 2 80

abbrev pub high : ChordNode
high = node_at 3 200

abbrev ring : EndpointId → Chord
ring e =
    if e.localid == 1
    then state_of low middle
    else if e.localid == 2
    then state_of middle high
    else state_of high low

abbrev Member : EndpointId → Type 0
Member e = (e ≡ place 1) ⊎ ((e ≡ place 2) ⊎ (e ≡ place 3))

table-IsInRange : (a b : ChordNode) → a.id < keyspace → b.id < keyspace → IsInRange (state_of a b)
table-IsInRange a b ha hb = record { self_lt = ha; finger_lt = λ i. ground arith }

successor_only :
    (a b : ChordNode) (i : ℕ) → chordnode_isnull ((state_of a b).fingers i) ≡ false → i ≡ 1
unfolding chordnode_isnull
successor_only a b i h = ground arith

ring-IsRing : IsRing ring Member
unfolding chordnode_isnull
ring-IsRing = record {
  in_range = λ e m.
      grind
        (arith, table-IsInRange low middle, table-IsInRange middle high, table-IsInRange high low);
  has_successor = λ e m. ground arith;
  finger_member = λ e i m l u h. ground arith;
  finger_id = λ e i m l u h. ground arith;
}

abbrev request : FindSuccessorMsg
request = record { id = 150; sender = place 9; hops = 0; payload = 1 }

route_answers_example :
    IsAnswered ring Member request keyspace (route ring keyspace (place 3) request)
route_answers_example =
    route_answers ring ring-IsRing (place 3) request (inr (inr refl)) (omega arith)

ring-gaps :
    (node e : EndpointId)
    → Member node
    → Member e
    → inrange_open (ring e).self.id (ring node).self.id ((ring node).fingers 1).id ≡ false
unfolding inrange_open
ring-gaps node e mn me = ground arith

lookup_correct_example :
    (a : IsAnswered ring Member request keyspace (route ring keyspace (place 3) request))
    × ((e : EndpointId)
        → Member e
        → (((ring a.node).fingers 1).id + keyspace - request.id) % keyspace
          ≤ ((ring e).self.id + keyspace - request.id) % keyspace)
lookup_correct_example =
    lookup_correct ring ring-IsRing ring-gaps (place 3) request (inr (inr refl)) (omega arith)

find_successor-Hop_example : Hop (state_of low middle) request
find_successor-Hop_example =
    find_successor-Hop (state_of low middle) request
      (table-IsInRange low middle (omega arith) (omega arith)) (unfold chordnode_isnull in refl)
      (omega arith)

-- The request of node 200 for its finger 7 names identifier 264: node 10, which has a successor
-- above it, passes the request on.
stabilize_request_beyond_example :
    chord_find_successor (state_of low middle) (finger_request (state_of high low) 5)
    ≡ some (
        send
          (state_of low middle)
          (closest_preceding_finger (state_of low middle) 264).epid
          (find_successor (record { id = 264; sender = place 3; hops = 1; payload = 7 })))
stabilize_request_beyond_example =
    stabilize_request_beyond (state_of high low) (state_of low middle) 5
      (table-IsInRange high low (omega arith) (omega arith))
      (table-IsInRange low middle (omega arith) (omega arith)) (unfold chordnode_isnull in refl)
      (omega arith)

-- Node 10 asks for its finger 4, which follows identifier 18; node 10 of a table with successor 80
-- answers.
chord_got_successor-answer_example : Refreshed (state_of low middle) (state_of low middle) 2 3
chord_got_successor-answer_example =
    chord_got_successor-answer (state_of low middle) (state_of low middle) 2 3
      (unfold chordnode_isnull in refl) refl refl (unfold inrange_open_closed in refl)

-- A node that starts a ring of its own, and what it is linked to.
abbrev fresh : Chord
fresh = record {
  caller = place 0;
  initial = place 0;
  self = null_node;
  fingers = λ _. null_node;
  successors = λ _. null_node;
  endpt = idle_endpoint 4;
  shutdown = false;
}

fresh-IsFresh : IsFresh fresh
fresh-IsFresh = record { no_fingers = λ i. refl; no_links = refl; open_box = refl }

or_fresh : Option Chord → Chord
or_fresh none = fresh
or_fresh (some crd) = crd

-- The node under identifier 77, alone on its ring.
started : Chord
unfolding or_fresh chord_start send endpoint_send chord_join chord_clear_tables clear_from
    set_finger set_noderef unlink_old link_new endpoint_link endpoint_link_locked endpointid_equals
    chordnode_isnull count_instances count_from set_successor chord_notify_joined endpoint_has_link
started = or_fresh (chord_start fresh 77)

chord_start-started : chord_start fresh 77 ≡ some started
unfolding started
chord_start-started = refl

started_links : (started.endpt.outlinks ≡ place 4 ∷ []) × (started.self.id ≡ 77)
unfolding started
started_links = (refl, refl)

Reach-Settled_example : Settled started
Reach-Settled_example = Reach-Settled (begin fresh 77 started fresh-IsFresh chord_start-started)

started_quiet : (e : EndpointId) → exits started.endpt.mailbox e ≡ false
unfolding started exits
started_quiet e = refl

started-IsProper : (j : ℕ) → IsProper (started.fingers j)
unfolding started
started-IsProper j = ground arith

started_checked : check_links started ≡ true
started_checked =
    check_links-Reach started (begin fresh 77 started fresh-IsFresh chord_start-started)
      started_quiet started-IsProper

check_links_iff_example : (check_links started ≡ true) ↔ LinksRight started
check_links_iff_example = check_links_iff started
