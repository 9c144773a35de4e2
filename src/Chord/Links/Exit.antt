-- ===== src/Chord/Links/Exit.antt =====
-- The exit of a peer (`chord_endpoint_exit`): the fingers that named it.
use nreduce.Base.{
  ℕ, zero, suc, ◌+◌, ◌-◌, ◌≤◌, ◌<◌, true, false, not, ◌||◌, ◌≡◌, ◌≢◌, refl, arith, List, ◌∷◌,
  Option, some, Bool-cases, inl, inr, ◌∙◌, >>=-eq-some,
}
use native.Mathlib.Decide.{ℕ_discrete}
use nreduce.Endpoint.{EndpointId, Packet, endpoint_exit, endpointid_equals}
use nreduce.Endpoint.Links.{endpointid_equals_iff}
use nreduce.Chord.Types.{ChordMsg, chordnode_isnull, null_node, Chord, mbits, ChordNode}
use nreduce.Chord.Table.{instance_of, count_instances, set_finger}
use nreduce.Chord.Handlers.{drop_one, drop_fingers, chord_endpoint_exit, shift_successors}
use nreduce.Chord.Links.Count.{count_instances-eq-zero}
use nreduce.Chord.Links.Balance.{IsBalanced, exits, set_finger-IsBalanced, set_finger-Changed}

-- What the loop over fingers `i` to `i + n - 1` leaves.
pub record Dropped (epid : EndpointId) (i n : ℕ) (crd crd' : Chord) : Type 0 where
  pub emptied : (j : ℕ) → i ≤ j → j < i + n → instance_of (crd'.fingers j) epid ≡ 0
  pub before : (j : ℕ) → j < i → crd'.fingers j ≡ crd.fingers j
  pub successors : crd'.successors ≡ crd.successors

-- One round of the loop: the finger does not name the endpoint any more, and no other has changed.
record DroppedOne (epid : EndpointId) (i : ℕ) (crd crd' : Chord) : Type 0 where
  empty : instance_of (crd'.fingers i) epid ≡ 0
  elsewhere : (j : ℕ) → i ≢ j → crd'.fingers j ≡ crd.fingers j
  same_successors : crd'.successors ≡ crd.successors

unnamed :
    (cn : ChordNode) (epid : EndpointId)
    → endpointid_equals epid cn.epid ≡ false
    → instance_of cn epid ≡ 0
unnamed cn epid h =
    ground (arith, endpointid_equals_iff epid cn.epid, endpointid_equals_iff cn.epid epid)

drop_one-DroppedOne :
    (crd c : Chord) (epid : EndpointId) (i : ℕ)
    → drop_one crd epid i ≡ some c
    → DroppedOne epid i crd c
unfolding chordnode_isnull
drop_one-DroppedOne crd c epid i e =
    elim (Bool-cases (endpointid_equals epid (crd.fingers i).epid)) [
      | inl hit ↦
          let ch = set_finger-Changed crd i null_node c (rw hit at e) in
          record { empty = rw ch.here; elsewhere = ch.elsewhere; same_successors = ch.successors }
      | inr miss ↦
          let same : crd ≡ c = kept_crd miss in
          rw (← same) (record {
            empty = unnamed (crd.fingers i) epid miss;
            elsewhere = λ j n. refl;
            same_successors = refl;
          })
    ]
  where
    kept_crd : endpointid_equals epid (crd.fingers i).epid ≡ false → crd ≡ c
    kept_crd miss = ground arith

pub drop_fingers-Dropped :
    (i n : ℕ) (crd crd' : Chord) (epid : EndpointId)
    → drop_fingers crd epid i n ≡ some crd'
    → Dropped epid i n crd crd'
unfolding drop_fingers
drop_fingers-Dropped i zero crd crd' epid e =
    let same : crd ≡ crd' = cc in
    rw (← same)
      (record { emptied = λ j l u. absurd (omega arith); before = λ j l. refl; successors = refl })
drop_fingers-Dropped i (suc n) crd crd' epid e =
    let (c, one, rest) = >>=-eq-some (drop_one crd epid i) (λ x. drop_fingers x epid (suc i) n) e in
    let o = drop_one-DroppedOne crd c epid i one in
    let d = drop_fingers-Dropped (suc i) n c crd' epid rest in
    record {
      emptied = λ j l u. elim (ℕ_discrete i j) [
        | yes here ↦ rw (← here, d.before i (omega arith)) o.empty
        | no later ↦ d.emptied j (omega arith) (omega arith)
      ];
      before = λ j l. d.before j (omega arith) ∙ o.elsewhere j (omega arith);
      successors = d.successors ∙ o.same_successors;
    }

module _ {gone box : List (Packet ChordMsg)} where
  drop_one-IsBalanced :
      (crd c : Chord) (epid : EndpointId) (i : ℕ)
      → 1 ≤ i
      → IsBalanced gone box crd
      → drop_one crd epid i ≡ some c
      → IsBalanced gone box c
  unfolding chordnode_isnull
  drop_one-IsBalanced crd c epid i h b e =
      elim (Bool-cases (endpointid_equals epid (crd.fingers i).epid)) [
        | inl hit ↦ set_finger-IsBalanced crd i null_node c b h (λ _. refl) (rw hit at e)
        | inr miss ↦ let same : crd ≡ c = kept_crd miss in rw (← same) b
      ]
    where
      kept_crd : endpointid_equals epid (crd.fingers i).epid ≡ false → crd ≡ c
      kept_crd miss = ground arith

  drop_fingers-IsBalanced :
      (i n : ℕ) (crd crd' : Chord) (epid : EndpointId)
      → 1 ≤ i
      → IsBalanced gone box crd
      → drop_fingers crd epid i n ≡ some crd'
      → IsBalanced gone box crd'
  unfolding drop_fingers
  drop_fingers-IsBalanced i zero crd crd' epid h b e = let same : crd ≡ crd' = cc in rw (← same) b
  drop_fingers-IsBalanced i (suc n) crd crd' epid h b e =
      let (c, one, rest) =
        >>=-eq-some (drop_one crd epid i) (λ x. drop_fingers x epid (suc i) n) e in
      drop_fingers-IsBalanced (suc i) n c crd' epid (omega arith)
        (drop_one-IsBalanced crd c epid i h b one) rest

-- After the notice has been handled no counted finger names the endpoint.
exit-cleared :
    (crd crd' : Chord) (epid : EndpointId)
    → instance_of (crd.fingers 1) epid ≡ 0
    → Dropped epid 2 (mbits - 1) crd crd'
    → count_instances crd'.fingers epid ≡ 0
exit-cleared crd crd' epid first d = count_instances-eq-zero crd'.fingers epid (λ j l u.
    elim (ℕ_discrete 1 j) [
      | yes one ↦ rw (← one, d.before 1 (omega arith)) first
      | no more ↦ d.emptied j (omega arith) (omega arith)
    ])

-- Once no finger names it, the endpoint need not be counted as gone.
exit-settled :
    {rest : List (Packet ChordMsg)} (crd : Chord) (epid : EndpointId) (reason : ℕ)
    → count_instances crd.fingers epid ≡ 0
    → IsBalanced (endpoint_exit epid reason ∷ rest) rest crd
    → IsBalanced rest rest crd
unfolding exits
exit-settled {rest} crd epid reason none_left b = record {
  agree = record {
    named = b.agree.named;
    linked = λ e n c. b.agree.linked e (not_exiting e n c) c;
    distinct = b.agree.distinct;
  };
  mailbox = b.mailbox;
  closed = b.closed;
  last_null = b.last_null;
}
  where
    not_exiting :
        (e : EndpointId)
        → exits rest e ≡ false
        → 0 < count_instances crd.fingers e
        → endpointid_equals epid e || exits rest e ≡ false
    not_exiting e n c = ground (arith, endpointid_equals_iff epid e)

drop_rest :
    {rest : List (Packet ChordMsg)} (crd crd' : Chord) (epid : EndpointId) (reason : ℕ)
    → instance_of (crd.fingers 1) epid ≡ 0
    → IsBalanced (endpoint_exit epid reason ∷ rest) rest crd
    → drop_fingers crd epid 2 (mbits - 1) ≡ some crd'
    → IsBalanced rest rest crd'
drop_rest crd crd' epid reason first b e =
    let b' = drop_fingers-IsBalanced 2 (mbits - 1) crd crd' epid (omega arith) b e in
    let d = drop_fingers-Dropped 2 (mbits - 1) crd crd' epid e in
    exit-settled crd' epid reason (exit-cleared crd crd' epid first d) b'

pub exit-IsBalanced :
    {rest : List (Packet ChordMsg)} (crd crd' : Chord) (epid : EndpointId) (reason : ℕ)
    → IsBalanced (endpoint_exit epid reason ∷ rest) rest crd
    → endpointid_equals epid (crd.successors 1).epid ≡ false
    → chord_endpoint_exit crd epid ≡ some crd'
    → crd'.shutdown ≡ false
    → IsBalanced rest rest crd'
unfolding chord_endpoint_exit
exit-IsBalanced {rest} crd crd' epid reason b spare e up =
    elim (Bool-cases (endpointid_equals epid (crd.fingers 1).epid)) [
      | inl lost ↦ elim (Bool-cases (not (chordnode_isnull (crd.successors 1)))) [
        | inl have ↦
            let (c, set, rest') =
              >>=-eq-some (set_finger crd 1 (crd.successors 1)) _ (rw (lost, have) at e) in
            let b' =
              set_finger-IsBalanced crd 1 (crd.successors 1) c b (omega arith)
                (λ h. absurd (omega arith)) set in
            let ch = set_finger-Changed crd 1 (crd.successors 1) c set in
            let s : Chord = record c { successors = shift_successors c.successors } in
            let b2 : IsBalanced (endpoint_exit epid reason ∷ rest) rest s = record {
              agree = b'.agree;
              mailbox = b'.mailbox;
              closed = b'.closed;
              last_null = b'.last_null;
            } in
            drop_rest s crd' epid reason
              (rw ch.here (
                ground (
                  arith,
                  endpointid_equals_iff epid (crd.successors 1).epid,
                  endpointid_equals_iff (crd.successors 1).epid epid,
                )))
              b2 rest'
        | inr none_left ↦
            let down : record crd { shutdown = true } ≡ crd' =
              shut_down (rw (lost, none_left) at e) in
            absurd (still_up (rw (← down) at up))
      ]
      | inr other ↦ drop_rest crd crd' epid reason (unnamed_first other) b (rw other at e)
    ]
  where
    unnamed_first :
        endpointid_equals epid (crd.fingers 1).epid ≡ false → instance_of (crd.fingers 1) epid ≡ 0
    unnamed_first other = ground (
      arith,
      endpointid_equals_iff epid (crd.fingers 1).epid,
      endpointid_equals_iff (crd.fingers 1).epid epid,
    )

    shut_down :
        ◌≡◌ {A = Option Chord} (some (record crd { shutdown = true })) (some crd')
        → record crd { shutdown = true } ≡ crd'
    shut_down h = cc

    still_up : ¬ (true ≡ false)
    still_up h = cc
