-- ===== src/Chord/Tests/Failover.antt =====
-- The failure of a successor, and a join between two nodes.
use nreduce.Base.{◌≡◌, refl, some, arith, if◌then◌else◌, ◌==◌}
use nreduce.Chord.Types.{Chord, chordnode_isnull, null_node}
use nreduce.Chord.Interval.{inrange_open}
use nreduce.Chord.Handlers.{chord_endpoint_exit}
use nreduce.Chord.Join.Messages.{Exchange, join-Joined}
use nreduce.Chord.Failover.{FailedOver, endpoint_exit-FailedOver}
use nreduce.Chord.Tests.{state_of, low, middle, high, place}

-- Node 10 with its successor 80 and the spare 200.
abbrev spared : Chord
spared = record (state_of low middle) { successors = λ i. if i == 1 then high else null_node }

endpoint_exit-FailedOver_example :
    (crd' : Chord) × (chord_endpoint_exit spared (place 2) ≡ some crd')
    × FailedOver spared (place 2) crd'
endpoint_exit-FailedOver_example =
    endpoint_exit-FailedOver spared (unfold chordnode_isnull in refl) refl

-- Node 80 joins between 10 and 200.
abbrev old : Chord
old = state_of low high

abbrev new : Chord
new = state_of middle null_node

join-Joined_example : Exchange old new 2 0
join-Joined_example =
    join-Joined old new 2 0 (omega arith) (omega arith) (omega arith) (unfold inrange_open in refl)
      (unfold chordnode_isnull in refl) refl refl
