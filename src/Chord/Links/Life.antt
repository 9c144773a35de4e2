-- ===== src/Chord/Links/Life.antt =====
-- Every state that a chord node can reach: messages arrive in any order, and the thread takes them
-- from the mailbox one by one.
use nreduce.Base.{
  ℕ, Bool, true, false, not, ◌||◌, ◌≡◌, refl, sym, arith, ◌==◌, List, [], ◌∷◌, ◌++◌, some,
  Bool-cases, inl, inr, subst, ◌%◌,
}
use nreduce.Endpoint.{
  EndpointId, Endpoint, Packet, user, kill, link, unlink, endpoint_exit, endpoint_has_link,
  endpoint_add_message, endpoint_receive, deliver,
}
use nreduce.Endpoint.Links.{endpointid_equals_iff, has_link-remove, remove-Distinct}
use nreduce.Chord.Types.{ChordMsg, chordnode_isnull, null_node, Chord, mbits, keyspace}
use nreduce.Chord.Table.{count_instances}
use nreduce.Chord.Handlers.{chord_start, chord_step, running}
use nreduce.Chord.Links.Count.{count_instances-eq-zero}
use nreduce.Chord.Links.Balance.{IsBalanced, exits}
use nreduce.Chord.Links.Moved.{Agree}
use nreduce.Chord.Links.Handlers.{join-IsBalanced, send-IsBalanced}
use nreduce.Chord.Links.Turn.{Expected, turn-IsBalanced}

-- The state that `start_chord` allocates: every byte that it does not set is zero.
pub record IsFresh (crd : Chord) : Type 0 where
  pub no_fingers : (i : ℕ) → crd.fingers i ≡ null_node
  pub no_links : crd.endpt.outlinks ≡ []
  pub open_box : crd.endpt.closed ≡ false

-- A message arrives at the endpoint, or the thread reads the oldest message of the mailbox and
-- handles it without stopping, aborting or shutting the node down.
pub data Step (crd : Chord) : Chord → Type 0 where
  arrive :
      (msg : Packet ChordMsg) (endpt' : Endpoint ChordMsg)
      → endpoint_add_message crd.endpt msg ≡ some endpt'
      → Step crd (record crd { endpt = endpt' })
  turn :
      (msg : Packet ChordMsg) (rest : List (Packet ChordMsg)) (random : ℕ) (crd' : Chord)
      → crd.endpt.mailbox ≡ msg ∷ rest
      → Expected crd.successors msg
      → chord_step (record crd { endpt = (endpoint_receive crd.endpt).0 }) msg random ≡ running crd'
      → crd'.shutdown ≡ false
      → Step crd crd'

pub data Reach : Chord → Type 0 where
  begin :
      (fresh : Chord) (random : ℕ) (crd : Chord)
      → IsFresh fresh
      → chord_start fresh random ≡ some crd
      → Reach crd
  later : {crd crd' : Chord} → Reach crd → Step crd crd' → Reach crd'

abbrev pub Settled : Chord → Type 0
Settled crd = IsBalanced crd.endpt.mailbox crd.endpt.mailbox crd

exits-append :
    (box : List (Packet ChordMsg)) (msg : Packet ChordMsg) (e : EndpointId)
    → exits (box ++ msg ∷ []) e ≡ (exits box e || exits (msg ∷ []) e)
unfolding exits
exits-append [] msg e = refl
exits-append (endpoint_exit from reason ∷ box) msg e = ground (arith, exits-append box msg e)
exits-append (link from ∷ box) msg e = exits-append box msg e
exits-append (unlink from ∷ box) msg e = exits-append box msg e
exits-append (kill ∷ box) msg e = exits-append box msg e
exits-append (user m ∷ box) msg e = exits-append box msg e

module _ (crd : Chord) (b : Settled crd) where
  arrive-Settled :
      (msg : Packet ChordMsg) (endpt' : Endpoint ChordMsg)
      → endpoint_add_message crd.endpt msg ≡ some endpt'
      → Settled (record crd { endpt = endpt' })
  unfolding endpoint_add_message deliver exits
  arrive-Settled (user m) endpt' e = record {
    agree = record {
      named = λ x t. ground (arith, b.agree.named x);
      linked = λ x n c.
          ground (arith, b.agree.linked x, b.closed, exits-append crd.endpt.mailbox (user m) x);
      distinct = ground (arith, b.agree.distinct);
    };
    mailbox = refl;
    closed = ground (arith, b.closed);
    last_null = b.last_null;
  }
  arrive-Settled kill endpt' e = record {
    agree = record {
      named = λ x t. ground (arith, b.agree.named x);
      linked = λ x n c.
          ground (arith, b.agree.linked x, b.closed, exits-append crd.endpt.mailbox kill x);
      distinct = ground (arith, b.agree.distinct);
    };
    mailbox = refl;
    closed = ground (arith, b.closed);
    last_null = b.last_null;
  }
  arrive-Settled (link from) endpt' e = record {
    agree = record {
      named = λ x t. ground (arith, b.agree.named x);
      linked = λ x n c.
          ground (arith, b.agree.linked x, b.closed, exits-append crd.endpt.mailbox (link from) x);
      distinct = ground (arith, b.agree.distinct);
    };
    mailbox = refl;
    closed = ground (arith, b.closed);
    last_null = b.last_null;
  }
  arrive-Settled (unlink from) endpt' e = record {
    agree = record {
      named = λ x t. ground (arith, b.agree.named x);
      linked = λ x n c.
          ground
            (arith, b.agree.linked x, b.closed, exits-append crd.endpt.mailbox (unlink from) x);
      distinct = ground (arith, b.agree.distinct);
    };
    mailbox = refl;
    closed = ground (arith, b.closed);
    last_null = b.last_null;
  }
  arrive-Settled (endpoint_exit from reason) endpt' e = record {
    agree = record {
      named = λ x t. ground (
        arith,
        b.agree.named x,
        has_link-remove crd.endpt.outlinks from x b.agree.distinct,
        endpointid_equals_iff from x,
      );
      linked = λ x n c. ground (
        arith,
        b.agree.linked x,
        b.closed,
        exits-append crd.endpt.mailbox (endpoint_exit from reason) x,
        has_link-remove crd.endpt.outlinks from x b.agree.distinct,
        endpointid_equals_iff from x,
      );
      distinct = ground (arith, remove-Distinct crd.endpt.outlinks from b.agree.distinct);
    };
    mailbox = refl;
    closed = ground (arith, b.closed);
    last_null = b.last_null;
  }

  turn-Settled :
      (msg : Packet ChordMsg) (rest : List (Packet ChordMsg)) (random : ℕ) (crd' : Chord)
      → crd.endpt.mailbox ≡ msg ∷ rest
      → Expected crd.successors msg
      → chord_step (record crd { endpt = (endpoint_receive crd.endpt).0 }) msg random ≡ running crd'
      → crd'.shutdown ≡ false
      → Settled crd'
  unfolding endpoint_receive
  turn-Settled msg rest random crd' box x e up =
      let taken : Chord = record crd { endpt = record crd.endpt { mailbox = rest } } in
      let ready : IsBalanced (msg ∷ rest) rest taken = record {
        agree = subst (λ q. Agree (exits q) crd.endpt.outlinks crd.fingers) box b.agree;
        mailbox = refl;
        closed = b.closed;
        last_null = b.last_null;
      } in
      let b' = turn-IsBalanced taken crd' msg random ready x (rw (box, endpoint_receive) at e) up in
      subst (λ q. IsBalanced q q crd') (sym b'.mailbox) b'

null_node-isnull : chordnode_isnull null_node ≡ true
unfolding chordnode_isnull
null_node-isnull = refl

fresh-Agree :
    (fresh : Chord)
    → IsFresh fresh
    → (gone : EndpointId → Bool) → Agree gone fresh.endpt.outlinks fresh.fingers
unfolding endpoint_has_link
fresh-Agree fresh f gone = record {
  named = λ e t. absurd (unlinked e (rw f.no_links at t));
  linked = λ e n c. absurd (omega (arith, none_named e));
  distinct = rw f.no_links tt;
}
  where
    unlinked : (e : EndpointId) → ¬ (endpoint_has_link [] e ≡ true)
    unlinked e h = cc

    none_named : (e : EndpointId) → count_instances fresh.fingers e ≡ 0
    none_named e =
        count_instances-eq-zero fresh.fingers e
          (λ j l u. rw (f.no_fingers j, null_node-isnull) refl)

start-Settled :
    (fresh : Chord) (random : ℕ) (crd : Chord)
    → IsFresh fresh
    → chord_start fresh random ≡ some crd
    → Settled crd
unfolding chord_start
start-Settled fresh random crd f e =
    let b' =
      elim (Bool-cases (not (fresh.caller.localid == 0)))
        as (λ _. IsBalanced fresh.endpt.mailbox fresh.endpt.mailbox crd) [
          | inl told ↦ join-IsBalanced _ crd (send-IsBalanced named_self _ _ b) (rw (told) at e)
          | inr alone ↦ join-IsBalanced named_self crd b (rw (alone) at e)
        ] in
    subst (λ q. IsBalanced q q crd) (sym b'.mailbox) b'
  where
    named_self : Chord
    named_self = record fresh { self = record { id = random % keyspace; epid = fresh.endpt.epid } }

    b : IsBalanced fresh.endpt.mailbox fresh.endpt.mailbox named_self
    b = record {
      agree = fresh-Agree fresh f (exits fresh.endpt.mailbox);
      mailbox = refl;
      closed = f.open_box;
      last_null = rw (f.no_fingers mbits) null_node-isnull;
    }

-- In every state that a node can reach, while the answers that it receives are for fingers below 8
-- and no exit notice is from its first spare successor (`Expected`), it is linked to each endpoint
-- that its fingers 1 to 7 name, unless an exit notice of that endpoint waits in the mailbox; it is
-- linked to no other endpoint, and to none twice.
pub Reach-Settled : {crd : Chord} → Reach crd → Settled crd
Reach-Settled (begin fresh random crd f e) = start-Settled fresh random crd f e
Reach-Settled (later {crd} r (arrive msg endpt' e)) =
    arrive-Settled crd (Reach-Settled r) msg endpt' e
Reach-Settled (later {crd} r (turn msg rest random crd' box x e up)) =
    turn-Settled crd (Reach-Settled r) msg rest random crd' box x e up
