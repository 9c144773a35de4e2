-- ===== src/Chord/Success.antt =====
-- When a change of a finger succeeds, and what a node has sent last.
use nreduce.Base.{
  ℕ, zero, suc, ◌+◌, ◌≤◌, true, false, ◌&&◌, ◌≡◌, refl, ◌⊎◌, inl, inr, some, ◌==◌, leb, Bool-cases,
  List, [], ◌∷◌, ◌++◌, arith,
}
use nreduce.Endpoint.{
  EndpointId, Packet, user, endpointid_equals, endpointid_isnull, Endpoint, endpoint_link,
  endpoint_link_locked,
}
use nreduce.Chord.Types.{ChordNode, chordnode_isnull, null_node, Chord, ChordMsg, mbits, update}
use nreduce.Chord.Table.{set_finger, set_noderef, link_new, unlink_old}
use nreduce.Chord.Handlers.{drop_fingers}

null_node-isnull : chordnode_isnull null_node ≡ true
unfolding chordnode_isnull
null_node-isnull = refl

link_new-some :
    (endpt : Endpoint ChordMsg) (cn : ChordNode)
    → (chordnode_isnull cn ≡ true) ⊎ (endpointid_isnull cn.epid ≡ false)
    → (e : Endpoint ChordMsg) × (link_new endpt cn ≡ some e)
unfolding link_new endpoint_link
link_new-some endpt cn h = elim (Bool-cases (chordnode_isnull cn)) [
  | inl null ↦ (endpt, rw null refl)
  | inr live ↦ elim h [
    | inl null ↦ cc
    | inr proper ↦ (endpoint_link_locked endpt cn.epid, rw (live, proper) refl)
  ]
]

-- A finger of the table is set if the node is null or has a proper endpoint.
pub set_finger-some :
    (crd : Chord) (i : ℕ) (cn : ChordNode)
    → i ≤ mbits
    → (chordnode_isnull cn ≡ true) ⊎ (endpointid_isnull cn.epid ≡ false)
    → (c : Chord) × (set_finger crd i cn ≡ some c)
unfolding set_finger set_noderef
set_finger-some crd i cn l h =
    let within : leb i mbits ≡ true = ground arith in
    let (e, linked) = link_new-some (unlink_old crd.endpt crd.fingers i) cn h in
    elim (Bool-cases
      ((crd.fingers i).id == cn.id && endpointid_equals (crd.fingers i).epid cn.epid)) [
        | inl same ↦ (crd, rw (within, same) refl)
        | inr other ↦ (
          record crd { fingers = update crd.fingers i cn; endpt = e },
          rw (within, other, linked) refl,
        )
      ]

-- The last message that a node has sent.
abbrev pub LastSent : Chord → EndpointId → ChordMsg → Type 0
LastSent crd dest m =
    (earlier : List (EndpointId × Packet ChordMsg)) × (crd.endpt.sent
      ≡ earlier ++ (dest, user m) ∷ [])

pub drop_fingers-some :
    (crd : Chord) (epid : EndpointId) (i n : ℕ)
    → i + n ≤ suc mbits
    → (c : Chord) × (drop_fingers crd epid i n ≡ some c)
unfolding drop_fingers
drop_fingers-some crd epid i zero l = (crd, refl)
drop_fingers-some crd epid i (suc n) l =
    elim (Bool-cases (endpointid_equals epid (crd.fingers i).epid)) [
      | inl hit ↦
          let (c, set) = set_finger-some crd i null_node (omega arith) (inl null_node-isnull) in
          let (d, rest) = drop_fingers-some c epid (suc i) n (omega arith) in
          (d, rw (hit, set) rest)
      | inr miss ↦
          let (d, rest) = drop_fingers-some crd epid (suc i) n (omega arith) in (d, rw miss rest)
    ]
