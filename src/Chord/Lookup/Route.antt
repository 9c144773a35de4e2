-- ===== src/Chord/Lookup/Route.antt =====
-- A request followed from node to node, as the handlers send it on, until one of them answers.
use nreduce.Base.{
  ℕ, zero, suc, ◌+◌, ◌-◌, ◌%◌, ◌≤◌, ◌<◌, true, false, List, [], ◌∷◌, ◌++◌, Option, none, some, ◌≡◌,
  refl, ◌>>=◌, arith, ◌∙◌,
}
use native.Mathlib.Nat.{add-zero}
use nreduce.Endpoint.{EndpointId, Packet, user, endpoint_send}
use nreduce.Chord.Types.{
  chordnode_isnull, FindSuccessorMsg, ChordMsg, find_successor, Chord, keyspace, mbits,
}
use nreduce.Chord.Interval.{
  inrange_open, inrange_open_closed, clockwise, inrange_open-clockwise,
  inrange_open_closed-clockwise,
}
use nreduce.Chord.Handlers.{chord_find_successor, answer, send}
use nreduce.Chord.Lookup.Progress.{IsInRange, Hop, answered, forwarded, find_successor-Hop}

-- The newest entry of a list of sent messages.
abbrev pub last_sent {ℓ} : {A : Type ℓ} → List A → Option A
last_sent [] = none
last_sent (x ∷ []) = some x
last_sent (x ∷ y ∷ ys) = last_sent (y ∷ ys)

last_sent-append {ℓ} : {A : Type ℓ} (xs : List A) (x : A) → last_sent (xs ++ x ∷ []) ≡ some x
last_sent-append [] x = refl
last_sent-append (y ∷ []) x = refl
last_sent-append (y ∷ z ∷ zs) x = last_sent-append (z ∷ zs) x

-- Who answered a request, and the message that it sent to whom.
pub record Reply : Type 0 where
  pub by : EndpointId
  pub to : EndpointId
  pub message : Packet ChordMsg

-- A request that was sent on goes to its receiver; anything else is the answer.
abbrev pub follow :
    Option (EndpointId × Packet ChordMsg)
    → (EndpointId → FindSuccessorMsg → Option Reply)
    → EndpointId
    → Option Reply
follow none onward here = none
follow (some (dest, user (find_successor m))) onward here = onward dest m
follow (some (dest, msg)) onward here = some (record { by = here; to = dest; message = msg })

-- The tables of the nodes stay as they are while the request travels.
pub route : (EndpointId → Chord) → ℕ → EndpointId → FindSuccessorMsg → Option Reply
route net zero here m = none
route net (suc fuel) here m =
    follow (chord_find_successor (net here) m >>= λ crd. last_sent crd.endpt.sent) (route net fuel)
      here

-- The members of a ring know a successor, and each finger of a member is a member, under the
-- identifier that it goes by.
pub record IsRing (net : EndpointId → Chord) (Member : EndpointId → Type 0) : Type 0 where
  pub in_range : (e : EndpointId) → Member e → IsInRange (net e)
  pub has_successor : (e : EndpointId) → Member e → chordnode_isnull ((net e).fingers 1) ≡ false
  pub finger_member :
      (e : EndpointId) (i : ℕ)
      → Member e
      → 1 ≤ i
      → i ≤ mbits
      → chordnode_isnull ((net e).fingers i) ≡ false
      → Member ((net e).fingers i).epid
  pub finger_id :
      (e : EndpointId) (i : ℕ)
      → Member e
      → 1 ≤ i
      → i ≤ mbits
      → chordnode_isnull ((net e).fingers i) ≡ false
      → (net ((net e).fingers i).epid).self.id ≡ ((net e).fingers i).id

-- What the sender of a request gets: the answer of a member whose arc holds the identifier.
pub record IsAnswered (net : EndpointId → Chord) (Member : EndpointId → Type 0)
    (m : FindSuccessorMsg) (fuel : ℕ) (result : Option Reply) : Type 0 where
  pub node : EndpointId
  pub hops : ℕ
  pub member : Member node
  pub few : hops < fuel
  pub owns : inrange_open_closed m.id (net node).self.id ((net node).fingers 1).id ≡ true
  pub reply :
      result
      ≡ some (record {
        by = node;
        to = m.sender;
        message = user (answer (net node) (record m { hops = m.hops + hops }));
      })

module _ (net : EndpointId → Chord) {Member : EndpointId → Type 0} (ring : IsRing net Member) where
  follow-answer :
      (here : EndpointId) (m : FindSuccessorMsg)
      (onward : EndpointId → FindSuccessorMsg → Option Reply)
      → chord_find_successor (net here) m ≡ some (send (net here) m.sender (answer (net here) m))
      → follow (chord_find_successor (net here) m >>= λ crd. last_sent crd.endpt.sent) onward here
        ≡ some (record { by = here; to = m.sender; message = user (answer (net here) m) })
  unfolding send endpoint_send answer
  follow-answer here m onward e = rw (e, last_sent-append) (ground arith)

  follow-forward :
      (here : EndpointId) (m m' : FindSuccessorMsg) (dest : EndpointId)
      (onward : EndpointId → FindSuccessorMsg → Option Reply)
      → chord_find_successor (net here) m ≡ some (send (net here) dest (find_successor m'))
      → follow (chord_find_successor (net here) m >>= λ crd. last_sent crd.endpt.sent) onward here
        ≡ onward dest m'
  unfolding send endpoint_send
  follow-forward here m m' dest onward e = rw (e, last_sent-append)

  -- The claim for requests that have `fuel` hops left.
  abbrev Routes : ℕ → Type 0
  Routes fuel =
      (here : EndpointId) (m : FindSuccessorMsg)
      → Member here
      → m.id < keyspace
      → clockwise (net here).self.id m.id ≤ fuel
      → IsAnswered net Member m fuel (route net fuel here m)

  route-Hop :
      (fuel : ℕ)
      → Routes fuel
      → (here : EndpointId) (m : FindSuccessorMsg) → Member here
      → m.id < keyspace
      → clockwise (net here).self.id m.id ≤ suc fuel
      → Hop (net here) m
      → IsAnswered net Member m (suc fuel) (route net (suc fuel) here m)
  unfolding route
  route-Hop fuel rest here m mem small h (answered owns e) = record {
    node = here;
    hops = 0;
    member = mem;
    few = omega arith;
    owns = owns;
    reply = follow-answer here m (route net fuel) e ∙ rw (add-zero m.hops);
  }
  route-Hop fuel rest here m mem small h (forwarded i hop e nearer) = record {
    node = ih.node;
    hops = ih.hops + 1;
    member = ih.member;
    few = omega (arith, ih.few);
    owns = ih.owns;
    reply =
        follow-forward here m m' next (route net fuel) e ∙ ih.reply ∙ rw (regroup m.hops ih.hops);
  }
    where
      m' : FindSuccessorMsg
      m' = record m { hops = m.hops + 1 }

      next : EndpointId
      next = ((net here).fingers i).epid

      ih : IsAnswered net Member m' fuel (route net fuel next m')
      ih =
          rest next m' (ring.finger_member here i mem hop.lower hop.upper hop.live) small
            (rw (ring.finger_id here i mem hop.lower hop.upper hop.live) (omega arith))

      regroup : (a b : ℕ) → a + 1 + b ≡ a + (b + 1)
      regroup a b = omega arith

  route_lem : (fuel : ℕ) → Routes fuel
  route_lem zero here m mem small h = absurd (omega arith)
  route_lem (suc fuel) here m mem small h =
      route-Hop fuel (route_lem fuel) here m mem small h (
        find_successor-Hop (net here) m (ring.in_range here mem) (ring.has_successor here mem)
          small)

  -- In a ring a request for an identifier of the key space, started at any member, is answered
  -- after fewer than 256 hops, by a member whose arc holds the identifier; the answer goes to the
  -- sender of the request and is that member's own, with the number of hops in it.
  pub route_answers :
      (here : EndpointId) (m : FindSuccessorMsg)
      → Member here
      → m.id < keyspace
      → IsAnswered net Member m keyspace (route net keyspace here m)
  route_answers here m mem small = route_lem keyspace here m mem small (omega arith)

  -- If no member lies between another and its successor, the successor that the answer names is
  -- the first member at or after the identifier.
  pub owner-nearest :
      (m : FindSuccessorMsg) (node e : EndpointId)
      → Member node
      → Member e
      → m.id < keyspace
      → inrange_open_closed m.id (net node).self.id ((net node).fingers 1).id ≡ true
      → inrange_open (net e).self.id (net node).self.id ((net node).fingers 1).id ≡ false
      → (((net node).fingers 1).id + keyspace - m.id) % keyspace
        ≤ ((net e).self.id + keyspace - m.id) % keyspace
  owner-nearest m node e mn me small owns gap =
      let rn = ring.in_range node mn in
      let re = ring.in_range e me in
      ground (
        arith,
        rn.self_lt,
        rn.finger_lt 1,
        re.self_lt,
        inrange_open_closed-clockwise m.id (net node).self.id ((net node).fingers 1).id,
        inrange_open-clockwise (net e).self.id (net node).self.id ((net node).fingers 1).id,
      )

  -- In a ring where no member lies strictly between another and its successor, a request for an
  -- identifier of the key space, started at any member, is answered after fewer than 256 hops, and
  -- the successor in the answer is the first member at or after the identifier.
  pub lookup_correct :
      ((node e : EndpointId)
        → Member node
        → Member e
        → inrange_open (net e).self.id (net node).self.id ((net node).fingers 1).id ≡ false)
      → (here : EndpointId) (m : FindSuccessorMsg) → Member here
      → m.id < keyspace
      → (a : IsAnswered net Member m keyspace (route net keyspace here m)) × ((e : EndpointId)
          → Member e
          → (((net a.node).fingers 1).id + keyspace - m.id) % keyspace
            ≤ ((net e).self.id + keyspace - m.id) % keyspace)
  lookup_correct gaps here m mem small =
      let a = route_answers here m mem small in
      (a, λ e me. owner-nearest m a.node e a.member me small a.owns (gaps a.node e a.member me))
