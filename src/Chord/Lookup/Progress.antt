-- ===== src/Chord/Lookup/Progress.antt =====
-- One hop of a request (`chord_find_successor`), and the distances that it leaves.
use nreduce.Base.{
  ℕ, zero, suc, ◌+◌, ◌≤◌, ◌<◌, true, false, not, ◌&&◌, ◌≡◌, inl, inr, some, arith, Bool-cases,
}
use nreduce.Chord.Types.{chordnode_isnull, FindSuccessorMsg, find_successor, Chord, mbits, keyspace}
use nreduce.Chord.Interval.{
  inrange_open, inrange_open_closed, clockwise, inrange_open-clockwise,
  inrange_open_closed-clockwise,
}
use nreduce.Chord.Table.{closest_from, closest_preceding_finger}
use nreduce.Chord.Handlers.{chord_find_successor, answer, send}

-- The identifiers that a node knows of lie in the key space.
pub record IsInRange (crd : Chord) : Type 0 where
  pub self_lt : crd.self.id < keyspace
  pub finger_lt : (i : ℕ) → (crd.fingers i).id < keyspace

-- The finger that the search returns when some finger up to `n` lies strictly between this node
-- and the identifier.
pub record IsHop (crd : Chord) (id i : ℕ) : Type 0 where
  pub lower : 1 ≤ i
  pub upper : i ≤ mbits
  pub live : chordnode_isnull (crd.fingers i) ≡ false
  pub between : inrange_open (crd.fingers i).id crd.self.id id ≡ true

-- The finger of least distance from the identifier is not always taken, but one that lies between
-- is, provided that there is one.
closest_from_lem :
    (crd : Chord) (id n j : ℕ)
    → n ≤ mbits
    → j ≤ n
    → IsHop crd id j
    → (i : ℕ) × (closest_from crd id n ≡ crd.fingers i) × IsHop crd id i
unfolding closest_from
closest_from_lem crd id zero j hn hj hop = absurd (omega (arith, hop.lower))
closest_from_lem crd id (suc n) j hn hj hop =
    elim (Bool-cases (
      not (chordnode_isnull (crd.fingers (suc n)))
      && inrange_open (crd.fingers (suc n)).id crd.self.id id)) [
        | inl hit ↦ (
          suc n,
          rw hit,
          record { lower = omega arith; upper = hn; live = ground arith; between = ground arith },
        )
        | inr miss ↦
            let (i, e, h) = closest_from_lem crd id n j (omega arith) (grind arith) hop in
            (i, rw miss e, h)
      ]

-- A hop to a finger strictly between shortens the distance to the identifier.
hop_distance :
    (a f id : ℕ)
    → a < keyspace
    → f < keyspace
    → id < keyspace
    → clockwise a f < clockwise a id
    → clockwise f id < clockwise a id
hop_distance a f id ha hf hi h = omega arith

-- What one hop does: the node answers with its successor, or it forwards the request, with the
-- count of hops raised by one, to one of its fingers.
pub data Hop (crd : Chord) (m : FindSuccessorMsg) : Type 0 where
  answered :
      inrange_open_closed m.id crd.self.id (crd.fingers 1).id ≡ true
      → chord_find_successor crd m ≡ some (send crd m.sender (answer crd m))
      → Hop crd m
  forwarded :
      (i : ℕ)
      → IsHop crd m.id i
      → chord_find_successor crd m
        ≡ some (send crd (crd.fingers i).epid (find_successor (record m { hops = m.hops + 1 })))
      → clockwise (crd.fingers i).id m.id < clockwise crd.self.id m.id
      → Hop crd m

-- A node that has a successor, and whose table lies in the key space, answers a request for an
-- identifier of the key space that lies between itself and its successor; any other it forwards to
-- a finger that is strictly nearer to the identifier than itself.
pub find_successor-Hop :
    (crd : Chord) (m : FindSuccessorMsg)
    → IsInRange crd
    → chordnode_isnull (crd.fingers 1) ≡ false
    → m.id < keyspace
    → Hop crd m
unfolding chord_find_successor closest_preceding_finger
find_successor-Hop crd m r live small =
    elim (Bool-cases (inrange_open_closed m.id crd.self.id (crd.fingers 1).id)) [
      | inl hit ↦ answered hit (ground arith)
      | inr miss ↦
          let first : IsHop crd m.id 1 = record {
            lower = omega arith;
            upper = omega arith;
            live = live;
            between = ground (
              arith,
              inrange_open-clockwise (crd.fingers 1).id crd.self.id m.id,
              inrange_open_closed-clockwise m.id crd.self.id (crd.fingers 1).id,
              r.self_lt,
              r.finger_lt 1,
            );
          } in
          let (i, e, hop) = closest_from_lem crd m.id mbits 1 (omega arith) (omega arith) first in
          forwarded i hop (rw (live, miss, e)) (
            ground (
              arith,
              hop.between,
              r.self_lt,
              r.finger_lt i,
              inrange_open-clockwise (crd.fingers i).id crd.self.id m.id,
              hop_distance crd.self.id (crd.fingers i).id m.id,
            ))
    ]
