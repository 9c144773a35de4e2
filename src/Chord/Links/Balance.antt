-- ===== src/Chord/Links/Balance.antt =====
-- The links of a node against the endpoints that its fingers name, and the exit notices that wait.
use native.Mathlib.Decide.{dec_lt}
use nreduce.Base.{
  ℕ, ◌≤◌, ◌<◌, Bool, true, false, ◌||◌, ◌≡◌, arith, List, [], ◌∷◌, some, inl, inr, ◌∙◌, ◌∙◌, subst,
}
use nreduce.Endpoint.{EndpointId, endpointid_equals, Packet, endpoint_exit}
use nreduce.Chord.Types.{ChordMsg, ChordNode, chordnode_isnull, Chord, mbits}
use nreduce.Chord.Table.{set_noderef, set_finger}
use nreduce.Chord.Links.Count.{count_instances-update_last}
use nreduce.Chord.Links.Moved.{Agree, Agree-update, Changed, set_noderef-Changed}

-- Is there an exit notice from the endpoint among the messages?
unfoldable pub exits : List (Packet ChordMsg) → EndpointId → Bool
exits [] e = false
exits (endpoint_exit from reason ∷ msgs) e = endpointid_equals from e || exits msgs e
exits (_ ∷ msgs) e = exits msgs e

-- The mailbox holds `box`. The table and the links of the node agree, but for endpoints whose exit
-- notice stands in `gone`, and the last finger, which is not counted, is null.
pub record IsBalanced (gone box : List (Packet ChordMsg)) (crd : Chord) : Type 0 where
  pub agree : Agree (exits gone) crd.endpt.outlinks crd.fingers
  pub mailbox : crd.endpt.mailbox ≡ box
  pub closed : crd.endpt.closed ≡ false
  pub last_null : chordnode_isnull (crd.fingers mbits) ≡ true

-- A change of a counted finger keeps the links and fingers in step.
Changed-IsBalanced :
    {gone box : List (Packet ChordMsg)} (crd : Chord) (k : ℕ) (cn : ChordNode) (crd' : Chord)
    → IsBalanced gone box crd
    → 1 ≤ k
    → k < mbits
    → Changed crd k cn crd'
    → IsBalanced gone box crd'
Changed-IsBalanced crd k cn crd' b h g c = elim c.fingers [
  | inl e ↦ rw e b
  | inr (f, l) ↦ record {
    agree = rw (f, l) (Agree-update crd.endpt.outlinks crd.fingers k h g b.agree cn);
    mailbox = c.mailbox ∙ b.mailbox;
    closed = c.closed ∙ b.closed;
    last_null = rw f (ground (arith, b.last_null));
  }
]

-- So does a change of the last finger to null.
Changed-IsBalanced_last :
    {gone box : List (Packet ChordMsg)} (crd : Chord) (cn : ChordNode) (crd' : Chord)
    → IsBalanced gone box crd
    → chordnode_isnull cn ≡ true
    → Changed crd mbits cn crd'
    → IsBalanced gone box crd'
Changed-IsBalanced_last crd cn crd' b null c = elim c.fingers [
  | inl e ↦ rw e b
  | inr (f, l) ↦
      let kept : crd'.endpt.outlinks ≡ crd.endpt.outlinks = l ∙ rw (b.last_null, null) in
      record {
        agree =
            rw (kept, f)
              (record {
                named = λ e t.
                    rw (count_instances-update_last crd.fingers e mbits cn (omega arith))
                      (b.agree.named e t);
                linked = λ e n t.
                    b.agree.linked e n
                      (rw (count_instances-update_last crd.fingers e mbits cn (omega arith)) at t);
                distinct = b.agree.distinct;
              });
        mailbox = c.mailbox ∙ b.mailbox;
        closed = c.closed ∙ b.closed;
        last_null = rw f (ground arith);
      }
]

pub set_finger-inv :
    (crd : Chord) (k : ℕ) (cn : ChordNode) (crd' : Chord)
    → set_finger crd k cn ≡ some crd'
    → (k ≤ mbits) × (set_noderef crd k cn ≡ some crd')
unfolding set_finger
set_finger-inv crd k cn crd' e = ground arith

pub set_finger-IsBalanced :
    {gone box : List (Packet ChordMsg)} (crd : Chord) (k : ℕ) (cn : ChordNode) (crd' : Chord)
    → IsBalanced gone box crd
    → 1 ≤ k
    → (k ≡ mbits → chordnode_isnull cn ≡ true)
    → set_finger crd k cn ≡ some crd'
    → IsBalanced gone box crd'
set_finger-IsBalanced crd k cn crd' b h last e =
    let (le, moved) = set_finger-inv crd k cn crd' e in
    elim (dec_lt k mbits) [
      | yes lt ↦ Changed-IsBalanced crd k cn crd' b h lt (set_noderef-Changed crd k cn crd' moved)
      | no ge ↦
          let top : k ≡ mbits = omega arith in
          Changed-IsBalanced_last crd cn crd' b (last top)
            (subst (λ j. Changed crd j cn crd') top (set_noderef-Changed crd k cn crd' moved))
    ]

pub set_finger-Changed :
    (crd : Chord) (k : ℕ) (cn : ChordNode) (crd' : Chord)
    → set_finger crd k cn ≡ some crd'
    → Changed crd k cn crd'
set_finger-Changed crd k cn crd' e =
    set_noderef-Changed crd k cn crd' (set_finger-inv crd k cn crd' e).1
