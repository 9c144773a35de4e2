-- ===== src/Chord/Links/Handlers.antt =====
-- The message handlers of chord.c, and what each does to the links and the fingers of the node.
use nreduce.Chord.Interval.{inrange_open_closed}
use nreduce.Base.{
  ℕ, zero, suc, ◌≤◌, ◌<◌, ◌%◌, not, ◌||◌, ◌≡◌, refl, arith, ◌==◌, List, ltb, Option, some, assert,
  Bool-cases, inl, inr, >>=-eq-some,
}
use nreduce.Endpoint.{EndpointId, Packet, endpointid_equals, endpoint_send}
use nreduce.Chord.Types.{
  ChordMsg, ChordNode, chordnode_isnull, null_node, Chord, mbits, keyspace, FindSuccessorMsg,
  InsertMsg, SetNextMsg, GotSuccessorMsg, joined, ReplySucclistMsg,
}
use nreduce.Chord.Table.{set_finger, set_successor, clear_from, chord_clear_tables}
use nreduce.Chord.Handlers.{
  send, chord_notify_joined, chord_join, chord_find_successor, duplicate_detected, chord_insert,
  chord_set_next, chord_get_succlist, chord_reply_succlist, chord_got_successor, chord_stabilize,
  chord_get_table,
}
use nreduce.Chord.Links.Balance.{IsBalanced, set_finger-IsBalanced}

module _ {gone box : List (Packet ChordMsg)} where
  pub send-IsBalanced :
      (crd : Chord) (d : EndpointId) (m : ChordMsg)
      → IsBalanced gone box crd
      → IsBalanced gone box (send crd d m)
  unfolding send endpoint_send
  send-IsBalanced crd d m b = record {
    agree = b.agree;
    mailbox = b.mailbox;
    closed = b.closed;
    last_null = b.last_null;
  }

  pub notify-IsBalanced :
      (crd : Chord) (cn : ChordNode)
      → IsBalanced gone box crd
      → IsBalanced gone box (chord_notify_joined crd cn)
  unfolding chord_notify_joined
  notify-IsBalanced crd cn b = elim (Bool-cases (not (crd.caller.localid == 0))) [
    | inl e ↦ rw (e) (send-IsBalanced crd crd.caller (joined crd.self) b)
    | inr e ↦ rw (e) b
  ]

  pub set_successor-IsBalanced :
      (crd : Chord) (cn : ChordNode) (crd' : Chord)
      → IsBalanced gone box crd
      → set_successor crd cn ≡ some crd'
      → IsBalanced gone box crd'
  unfolding set_successor
  set_successor-IsBalanced crd cn crd' b e =
      set_finger-IsBalanced crd 1 cn crd' b (omega arith) (λ h. absurd (omega arith)) e

  pub clear_from-IsBalanced :
      (i n : ℕ) (crd crd' : Chord)
      → 1 ≤ i
      → IsBalanced gone box crd
      → clear_from crd i n ≡ some crd'
      → IsBalanced gone box crd'
  unfolding clear_from chordnode_isnull
  clear_from-IsBalanced i zero crd crd' h b e = let e' : crd ≡ crd' = cc in rw (← e') b
  clear_from-IsBalanced i (suc n) crd crd' h b e =
      let (c, set, rest) =
        >>=-eq-some (set_finger crd i null_node) (λ x. clear_from x (suc i) n) e in
      clear_from-IsBalanced (suc i) n c crd' (omega arith)
        (set_finger-IsBalanced crd i null_node c b h (λ _. refl) set) rest

  pub clear_tables-IsBalanced :
      (crd crd' : Chord)
      → IsBalanced gone box crd
      → chord_clear_tables crd ≡ some crd'
      → IsBalanced gone box crd'
  unfolding chord_clear_tables
  clear_tables-IsBalanced crd crd' b e =
      let (c, cleared, done) = >>=-eq-some (clear_from crd 1 mbits) _ e in
      let b' = clear_from-IsBalanced 1 mbits crd c (omega arith) b cleared in
      let e' : record c { successors = λ _. null_node } ≡ crd' = cc in
      rw (← e') (record {
        agree = b'.agree;
        mailbox = b'.mailbox;
        closed = b'.closed;
        last_null = b'.last_null;
      })

  -- The answers to queries change no table.
  pub get_succlist-IsBalanced :
      (crd : Chord) (sender : EndpointId)
      → IsBalanced gone box crd
      → IsBalanced gone box (chord_get_succlist crd sender)
  unfolding chord_get_succlist
  get_succlist-IsBalanced crd sender b = send-IsBalanced crd _ _ b

  pub get_table-IsBalanced :
      (crd : Chord) (sender : EndpointId)
      → IsBalanced gone box crd
      → IsBalanced gone box (chord_get_table crd sender)
  unfolding chord_get_table
  get_table-IsBalanced crd sender b = send-IsBalanced crd _ _ b

  pub reply_succlist-IsBalanced :
      (crd : Chord) (m : ReplySucclistMsg)
      → IsBalanced gone box crd
      → IsBalanced gone box (chord_reply_succlist crd m)
  unfolding chord_reply_succlist
  reply_succlist-IsBalanced crd m b =
      elim (Bool-cases (not (endpointid_equals m.sender (crd.fingers 1).epid))) [
        | inl stale ↦ rw stale b
        | inr fresh ↦ rw fresh (record {
          agree = b.agree;
          mailbox = b.mailbox;
          closed = b.closed;
          last_null = b.last_null;
        })
      ]

  pub stabilize-IsBalanced :
      (crd : Chord) (random : ℕ)
      → IsBalanced gone box crd
      → IsBalanced gone box (chord_stabilize crd random)
  unfolding chord_stabilize
  stabilize-IsBalanced crd random b = elim (Bool-cases (chordnode_isnull (crd.fingers 1))) [
    | inl joining ↦ rw joining b
    | inr live ↦ rw live (send-IsBalanced _ _ _ (send-IsBalanced crd _ _ b))
  ]

  pub through :
      {a b : Chord}
      → ◌≡◌ {A = Option Chord} (some a) (some b)
      → IsBalanced gone box a
      → IsBalanced gone box b
  through {a} {b} e h = let e' : a ≡ b = cc in rw (← e') h

  pub join-IsBalanced :
      (crd crd' : Chord)
      → IsBalanced gone box crd
      → chord_join crd ≡ some crd'
      → IsBalanced gone box crd'
  unfolding chord_join
  join-IsBalanced crd crd' b e =
      let (c, cleared, done) = >>=-eq-some (chord_clear_tables crd) _ e in
      let b' = clear_tables-IsBalanced crd c b cleared in
      elim (Bool-cases (c.initial.localid == 0)) [
        | inl first ↦
            let (alone, set, told) = >>=-eq-some (set_successor c c.self) _ (rw first at done) in
            through told
              (notify-IsBalanced alone alone.self (set_successor-IsBalanced c c.self alone b' set))
        | inr later ↦ through (rw later at done) (send-IsBalanced c _ _ b')
      ]

  pub find_successor-IsBalanced :
      (crd crd' : Chord) (m : FindSuccessorMsg)
      → IsBalanced gone box crd
      → chord_find_successor crd m ≡ some crd'
      → IsBalanced gone box crd'
  unfolding chord_find_successor
  find_successor-IsBalanced crd crd' m b e =
      let (_, live, done) = >>=-eq-some (assert (not (chordnode_isnull (crd.fingers 1)))) _ e in
      elim (Bool-cases (inrange_open_closed m.id crd.self.id (crd.fingers 1).id)) [
        | inl hit ↦ through (rw hit at done) (send-IsBalanced crd _ _ b)
        | inr miss ↦ through (rw miss at done) (send-IsBalanced crd _ _ b)
      ]

  pub insert-IsBalanced :
      (crd crd' : Chord) (m : InsertMsg) (random : ℕ)
      → IsBalanced gone box crd
      → chord_insert crd m random ≡ some crd'
      → IsBalanced gone box crd'
  unfolding chord_insert duplicate_detected
  insert-IsBalanced crd crd' m random b e = elim (Bool-cases (m.successor.id == crd.self.id)) [
    | inl taken ↦
        let renamed = record crd {
          self = record { id = random % keyspace; epid = crd.self.epid };
        } in
        let b' : IsBalanced gone box renamed = record {
          agree = b.agree;
          mailbox = b.mailbox;
          closed = b.closed;
          last_null = b.last_null;
        } in
        elim (Bool-cases (not (crd.caller.localid == 0))) [
          | inl told ↦
              join-IsBalanced _ crd' (send-IsBalanced renamed _ _ b') (rw (taken, told) at e)
          | inr alone ↦ join-IsBalanced renamed crd' b' (rw (taken, alone) at e)
        ]
    | inr free ↦
        let (c, set, done) = >>=-eq-some (set_successor crd m.successor) _ (rw free at e) in
        through done (send-IsBalanced c _ _ (set_successor-IsBalanced crd m.successor c b set))
  ]

  pub set_next-IsBalanced :
      (crd crd' : Chord) (m : SetNextMsg)
      → IsBalanced gone box crd
      → chord_set_next crd m ≡ some crd'
      → IsBalanced gone box crd'
  unfolding chord_set_next
  set_next-IsBalanced crd crd' m b e =
      elim (Bool-cases (not (endpointid_equals m.old_successor.epid (crd.fingers 1).epid))) [
        | inl changed ↦
            let (_, _, e1) =
              >>=-eq-some (assert (not (m.old_successor.id == (crd.fingers 1).id))) _
                (rw changed at e) in
            let (_, _, e2) = >>=-eq-some (assert (not (m.new_successor.id == crd.self.id))) _ e1 in
            through e2 (send-IsBalanced crd _ _ b)
        | inr still ↦
            let (_, _, e1) =
              >>=-eq-some (assert (m.old_successor.id == (crd.fingers 1).id)) _ (rw still at e) in
            let (c, set, done) = >>=-eq-some (set_successor crd m.new_successor) _ e1 in
            through done
              (notify-IsBalanced c _ (set_successor-IsBalanced crd m.new_successor c b set))
      ]

  pub got_successor-IsBalanced :
      (crd crd' : Chord) (m : GotSuccessorMsg)
      → IsBalanced gone box crd
      → m.payload < mbits
      → chord_got_successor crd m ≡ some crd'
      → IsBalanced gone box crd'
  unfolding chord_got_successor
  got_successor-IsBalanced crd crd' m b small e =
      let (_, big, e1) = >>=-eq-some (assert (ltb 1 m.payload)) _ e in
      let (_, _, e2) = >>=-eq-some (assert (not (chordnode_isnull m.successor))) _ e1 in
      let (_, _, set) =
        >>=-eq-some
          (assert (
            not (m.successor.id == crd.self.id)
            || endpointid_equals m.successor.epid crd.self.epid))
          _ e2 in
      set_finger-IsBalanced crd m.payload m.successor crd' b (ground arith)
        (λ h. absurd (omega arith)) set
