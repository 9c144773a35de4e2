-- ===== src/Chord/Failover.antt =====
-- The exit of the successor of a node (`chord_endpoint_exit` of chord.c).
use nreduce.Chord.Success.{set_finger-some, drop_fingers-some}
use nreduce.Base.{inr, ℕ, suc, ◌-◌, ◌≤◌, ◌<◌, false, ◌≡◌, arith, some, ◌∙◌, >>=-eq-some}
use nreduce.Endpoint.{EndpointId, endpointid_isnull}
use nreduce.Endpoint.Links.{endpointid_equals_refl}
use nreduce.Chord.Types.{chordnode_isnull, Chord, mbits, nsuccessors}
use nreduce.Chord.Table.{instance_of, set_finger}
use nreduce.Chord.Handlers.{chord_endpoint_exit, shift_successors}
use nreduce.Chord.Links.Balance.{set_finger-Changed}
use nreduce.Chord.Links.Exit.{drop_fingers-Dropped}

-- The table after the exit of the successor: the first spare takes its place, the other spares move
-- up by one, and no other finger names the endpoint.
pub record FailedOver (crd : Chord) (epid : EndpointId) (crd' : Chord) : Type 0 where
  pub successor : crd'.fingers 1 ≡ crd.successors 1
  pub moved : (i : ℕ) → 1 ≤ i → i < nsuccessors → crd'.successors i ≡ crd.successors (suc i)
  pub purged : (i : ℕ) → 2 ≤ i → i ≤ mbits → instance_of (crd'.fingers i) epid ≡ 0

exit-FailedOver :
    (crd crd' : Chord)
    → chordnode_isnull (crd.successors 1) ≡ false
    → chord_endpoint_exit crd (crd.fingers 1).epid ≡ some crd'
    → FailedOver crd (crd.fingers 1).epid crd'
unfolding chord_endpoint_exit
exit-FailedOver crd crd' spare e =
    let (c, set, dropped) =
      >>=-eq-some (set_finger crd 1 (crd.successors 1)) _
        (rw (endpointid_equals_refl (crd.fingers 1).epid, spare) at e) in
    let ch = set_finger-Changed crd 1 (crd.successors 1) c set in
    let shifted : Chord = record c { successors = shift_successors c.successors } in
    let d = drop_fingers-Dropped 2 (mbits - 1) shifted crd' (crd.fingers 1).epid dropped in
    record {
      successor = d.before 1 (omega arith) ∙ ch.here;
      moved = λ i l u. rw (d.successors, ch.successors) (ground arith);
      purged = λ i l u. d.emptied i l (omega arith);
    }

-- When the successor of a node exits and the first spare is a proper node, the handler succeeds: the
-- spare has become the successor, the other spares have moved up, and no finger from the second on
-- names the endpoint that has gone.
pub endpoint_exit-FailedOver :
    (crd : Chord)
    → chordnode_isnull (crd.successors 1) ≡ false
    → endpointid_isnull (crd.successors 1).epid ≡ false
    → (crd' : Chord) × (chord_endpoint_exit crd (crd.fingers 1).epid ≡ some crd')
      × FailedOver crd (crd.fingers 1).epid crd'
unfolding chord_endpoint_exit
endpoint_exit-FailedOver crd spare proper =
    let (c, set) = set_finger-some crd 1 (crd.successors 1) (omega arith) (inr proper) in
    let (d, dropped) =
      drop_fingers-some (record c { successors = shift_successors c.successors })
        (crd.fingers 1).epid 2 (mbits - 1) (omega arith) in
    let handled : chord_endpoint_exit crd (crd.fingers 1).epid ≡ some d =
      rw (endpointid_equals_refl (crd.fingers 1).epid, spare, set) dropped in
    (d, handled, exit-FailedOver crd d spare handled)
