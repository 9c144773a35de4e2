-- ===== src/Chord/Table.antt =====
-- The finger table of chord.c and the links that go with it.
use nreduce.Base.{
  ℕ, zero, suc, ◌+◌, ◌-◌, Bool, not, ◌&&◌, List, [], ◌∷◌, Option, none, some, ◌==◌, leb,
  if◌then◌else◌, ◌>>=◌,
}
use nreduce.Endpoint.{
  EndpointId, Endpoint, endpointid_equals, endpoint_link, endpoint_unlink, endpoint_check_links,
}
use nreduce.Chord.Types.{ChordNode, chordnode_isnull, null_node, ChordMsg, Chord, mbits, update}
use nreduce.Chord.Interval.{inrange_open}

-- The loop of `closest_preceding_finger`, from finger `findex` down.
unfoldable pub closest_from : Chord → ℕ → ℕ → ChordNode
closest_from crd id zero = crd.self
closest_from crd id (suc findex) =
    if not (chordnode_isnull (crd.fingers (suc findex)))
      && inrange_open (crd.fingers (suc findex)).id crd.self.id id
    then crd.fingers (suc findex)
    else closest_from crd id findex

unfoldable pub closest_preceding_finger : Chord → ℕ → ChordNode
closest_preceding_finger crd id = closest_from crd id mbits

-- The identifiers of `n` fingers from finger `i` on.
unfoldable pub finger_epids : (ℕ → ChordNode) → ℕ → ℕ → List EndpointId
finger_epids fingers i zero = []
finger_epids fingers i (suc n) = (fingers i).epid ∷ finger_epids fingers (suc i) n

-- Fingers 1 to MBITS - 1 against the links of the endpoint.
unfoldable pub check_links : Chord → Bool
check_links crd = endpoint_check_links crd.endpt.outlinks (finger_epids crd.fingers 1 (mbits - 1))

abbrev pub instance_of : ChordNode → EndpointId → ℕ
instance_of cn epid = if not (chordnode_isnull cn) && endpointid_equals cn.epid epid then 1 else 0

-- The `n` rounds of the loop of `count_instances` from index `i` on.
unfoldable pub count_from : (ℕ → ChordNode) → EndpointId → ℕ → ℕ → ℕ
count_from fingers epid i zero = 0
count_from fingers epid i (suc n) = instance_of (fingers i) epid + count_from fingers epid (suc i) n

unfoldable pub count_instances : (ℕ → ChordNode) → EndpointId → ℕ
count_instances fingers epid = count_from fingers epid 1 (mbits - 1)

-- The part of `set_noderef` that unlinks the old endpoint of finger `i`, if no other finger names
-- it.
unfoldable pub unlink_old : Endpoint ChordMsg → (ℕ → ChordNode) → ℕ → Endpoint ChordMsg
unlink_old endpt fingers i =
    let ptr = fingers i in
    let oldinst = if chordnode_isnull ptr then 0 else count_instances fingers ptr.epid in
    if oldinst == 1 then endpoint_unlink endpt ptr.epid else endpt

unfoldable pub link_new : Endpoint ChordMsg → ChordNode → Option (Endpoint ChordMsg)
link_new endpt cn = if chordnode_isnull cn then some endpt else endpoint_link endpt cn.epid

-- `set_noderef` on `&crd->fingers[i]`, its only use. The count `newinst` is never read.
unfoldable pub set_noderef : Chord → ℕ → ChordNode → Option Chord
set_noderef crd i cn =
    let ptr = crd.fingers i in
    if ptr.id == cn.id && endpointid_equals ptr.epid cn.epid
    then some crd
    else (link_new (unlink_old crd.endpt crd.fingers i) cn >>= λ endpt'.
        some (record crd { fingers = update crd.fingers i cn; endpt = endpt' }))

-- An index past the table is a write out of bounds.
unfoldable pub set_finger : Chord → ℕ → ChordNode → Option Chord
set_finger crd i newfinger = if leb i mbits then set_noderef crd i newfinger else none

unfoldable pub set_successor : Chord → ChordNode → Option Chord
set_successor crd newsuccessor = set_finger crd 1 newsuccessor

-- `n` rounds of the loop of `chord_clear_tables` from index `i` on.
unfoldable pub clear_from : Chord → ℕ → ℕ → Option Chord
clear_from crd i zero = some crd
clear_from crd i (suc n) = set_finger crd i null_node >>= λ crd'. clear_from crd' (suc i) n

unfoldable pub chord_clear_tables : Chord → Option Chord
chord_clear_tables crd =
    clear_from crd 1 mbits >>= λ crd'. some (record crd' { successors = λ _. null_node })
