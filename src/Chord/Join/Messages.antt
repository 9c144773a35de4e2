-- ===== src/Chord/Join/Messages.antt =====
-- The messages of a join, from the request of the new node on (chord.c).
use nreduce.Chord.Success.{LastSent}
use nreduce.Base.{ap, subst, ℕ, ◌<◌, true, false, ◌≡◌, refl, arith, ◌==◌, some, ◌∙◌, >>=-eq-some}
use nreduce.Endpoint.{endpointid_isnull, endpoint_send}
use nreduce.Chord.Types.{
  ChordNode, chordnode_isnull, Chord, keyspace, FindSuccessorMsg, InsertMsg, SetNextMsg, insert,
  set_next,
}
use nreduce.Chord.Interval.{
  inrange_open, inrange_open_closed, inrange_open-clockwise, inrange_open_closed-clockwise,
}
use nreduce.Chord.Table.{set_finger, set_successor}
use nreduce.Chord.Handlers.{send, answer, chord_find_successor, chord_insert, chord_set_next}
use nreduce.Chord.Join.{Joined, insert-fingers, accepted-Joined, insert-some, set_next-some}

-- An identifier strictly inside an arc lies in it.
open_closed-inside :
    (n a s : ℕ)
    → a < keyspace
    → n < keyspace
    → s < keyspace
    → inrange_open n a s ≡ true
    → inrange_open_closed n a s ≡ true
open_closed-inside n a s ha hn hs h =
    ground (arith, inrange_open-clockwise n a s, inrange_open_closed-clockwise n a s)

-- What a node asks when it joins (`chord_join`).
abbrev pub join_request : Chord → ℕ → FindSuccessorMsg
join_request new hops = record {
  id = new.self.id;
  sender = new.self.epid;
  hops = hops;
  payload = 1;
}

-- The three messages of a join, each taken from what the handler before it has sent, and the states
-- that they leave.
pub record Exchange (old new : Chord) (hops random : ℕ) : Type 0 where
  pub asked : Chord
  pub answers : chord_find_successor old (join_request new hops) ≡ some asked
  pub insertion : InsertMsg
  pub first_sent : LastSent asked new.self.epid (insert insertion)
  pub new' : Chord
  pub joins : chord_insert new insertion random ≡ some new'
  pub accepted : SetNextMsg
  pub second_sent : LastSent new' old.self.epid (set_next accepted)
  pub old' : Chord
  pub accepts : chord_set_next asked accepted ≡ some old'
  pub joined : Joined old old' new'

insert-sent :
    (crd crd' : Chord) (m : InsertMsg) (random : ℕ)
    → (m.successor.id == crd.self.id) ≡ false
    → chord_insert crd m random ≡ some crd'
    → LastSent crd' m.predecessor
        (set_next (record { new_successor = crd'.self; old_successor = m.successor }))
unfolding chord_insert set_successor send endpoint_send
insert-sent crd crd' m random free e =
    let (c, set, done) =
      >>=-eq-some (set_finger crd 1 m.successor) _ (rw (free, chord_insert) at e) in
    let out : send c m.predecessor
          (set_next (record { new_successor = c.self; old_successor = m.successor }))
        ≡ crd' =
      cc in
    subst
      (λ (x : Chord).
        LastSent x m.predecessor
          (set_next (record { new_successor = x.self; old_successor = m.successor })))
      out (c.endpt.sent, refl)

-- A node whose identifier lies strictly inside the arc of another joins behind it. The other answers
-- its request with an insert message, it handles this with a message that names its new successor,
-- and the other handles that one; all three succeed, if the endpoints of the new node and of the
-- successor are proper, and afterwards the two arcs are disjoint and make up the old one.
pub join-Joined :
    (old new : Chord) (hops random : ℕ)
    → old.self.id < keyspace
    → new.self.id < keyspace
    → (old.fingers 1).id < keyspace
    → inrange_open new.self.id old.self.id (old.fingers 1).id ≡ true
    → chordnode_isnull (old.fingers 1) ≡ false
    → endpointid_isnull (old.fingers 1).epid ≡ false
    → endpointid_isnull new.self.epid ≡ false
    → Exchange old new hops random
unfolding chord_find_successor answer send endpoint_send
join-Joined old new hops random ho hn hs inside live proper_old proper_new =
    let free : ((old.fingers 1).id == new.self.id) ≡ false =
      ground (arith, inrange_open-clockwise new.self.id old.self.id (old.fingers 1).id) in
    let insertion : InsertMsg = record { predecessor = old.self.epid; successor = old.fingers 1 } in
    let within = open_closed-inside new.self.id old.self.id (old.fingers 1).id ho hn hs inside in
    let asked = send old new.self.epid (insert insertion) in
    let (new', joins) = insert-some new insertion random free proper_old in
    let named = (insert-fingers new new' _ random free joins).1 in
    let (old', accepts) =
      set_next-some asked new'.self
        (ap (λ (c : ChordNode). endpointid_isnull c.epid) named ∙ proper_new) in
    let j = accepted-Joined asked new old' new' random ho hn hs inside joins accepts in
    record {
      asked = asked;
      answers = rw (live, within) refl;
      insertion = insertion;
      first_sent = (old.endpt.sent, refl);
      new' = new';
      joins = joins;
      accepted = record { new_successor = new'.self; old_successor = old.fingers 1 };
      second_sent = insert-sent new new' insertion random free joins;
      old' = old';
      accepts = accepts;
      joined = record {
        old_successor = j.old_successor;
        new_successor = j.new_successor;
        arcs = j.arcs;
        disjoint = j.disjoint;
      };
    }
