-- ===== src/Chord/Links/Turn.antt =====
-- One round of the loop of `chord_thread`: the links and the fingers before it and after it.
use nreduce.Chord.Links.Exit.{exit-IsBalanced}
use nreduce.Base.{ℕ, ◌<◌, false, ◌≡◌, List, ◌∷◌, Option, some, none}
use nreduce.Endpoint.{Packet, endpoint_exit, endpointid_equals, user, kill, link, unlink}
use nreduce.Chord.Types.{
  ChordMsg, ChordNode, Chord, mbits, find_successor, got_successor, insert, set_next, get_succlist,
  reply_succlist, stabilize, get_table, reply_table, find_all, chord_started, id_changed, joined,
}
use nreduce.Chord.Handlers.{running, outcome, handle, chord_step}
use nreduce.Chord.Links.Balance.{IsBalanced, exits}
use nreduce.Chord.Links.Handlers.{
  find_successor-IsBalanced, get_succlist-IsBalanced, get_table-IsBalanced,
  got_successor-IsBalanced, insert-IsBalanced, reply_succlist-IsBalanced, set_next-IsBalanced,
  stabilize-IsBalanced, through,
}

-- What a node relies on in a message: a finger index that its own requests carry, and an exit
-- notice of another endpoint than its first spare successor.
abbrev pub Expected : (ℕ → ChordNode) → Packet ChordMsg → Type 0
Expected successors (user (got_successor m)) = m.payload < mbits
Expected successors (endpoint_exit epid reason) = endpointid_equals epid (successors 1).epid ≡ false
Expected successors _ = Unit

outcome-running : (o : Option Chord) (crd' : Chord) → outcome o ≡ running crd' → o ≡ some crd'
outcome-running none crd' e = cc
outcome-running (some crd) crd' e = cc

ran : {a b : Chord} → running a ≡ running b → ◌≡◌ {A = Option Chord} (some a) (some b)
ran e = cc

module _ {rest : List (Packet ChordMsg)} where
  handle-IsBalanced :
      (crd crd' : Chord) (m : ChordMsg) (random : ℕ)
      → IsBalanced rest rest crd
      → Expected crd.successors (user m)
      → handle crd m random ≡ running crd'
      → IsBalanced rest rest crd'
  unfolding handle
  handle-IsBalanced crd crd' (find_successor m) random b x e =
      find_successor-IsBalanced crd crd' m b (outcome-running _ crd' e)
  handle-IsBalanced crd crd' (insert m) random b x e =
      insert-IsBalanced crd crd' m random b (outcome-running _ crd' e)
  handle-IsBalanced crd crd' (set_next m) random b x e =
      set_next-IsBalanced crd crd' m b (outcome-running _ crd' e)
  handle-IsBalanced crd crd' (got_successor m) random b x e =
      got_successor-IsBalanced crd crd' m b x (outcome-running _ crd' e)
  handle-IsBalanced crd crd' (get_succlist sender) random b x e =
      through (ran e) (get_succlist-IsBalanced crd sender b)
  handle-IsBalanced crd crd' (reply_succlist m) random b x e =
      through (ran e) (reply_succlist-IsBalanced crd m b)
  handle-IsBalanced crd crd' stabilize random b x e =
      through (ran e) (stabilize-IsBalanced crd random b)
  handle-IsBalanced crd crd' (get_table sender) random b x e =
      through (ran e) (get_table-IsBalanced crd sender b)
  handle-IsBalanced crd crd' find_all random b x e = through (ran e) b
  handle-IsBalanced crd crd' (reply_table m) random b x e = cc
  handle-IsBalanced crd crd' (chord_started cn) random b x e = cc
  handle-IsBalanced crd crd' (id_changed cn oldid) random b x e = cc
  handle-IsBalanced crd crd' (joined cn) random b x e = cc

  -- A turn on a message other than an exit notice, in the form that the loop needs.
  pub turn-IsBalanced :
      (crd crd' : Chord) (msg : Packet ChordMsg) (random : ℕ)
      → IsBalanced (msg ∷ rest) rest crd
      → Expected crd.successors msg
      → chord_step crd msg random ≡ running crd'
      → crd'.shutdown ≡ false
      → IsBalanced rest rest crd'
  unfolding chord_step exits
  turn-IsBalanced crd crd' (user m) random b x e up =
      handle-IsBalanced crd crd' m random
        (record {
          agree = record {
            named = b.agree.named;
            linked = b.agree.linked;
            distinct = b.agree.distinct;
          };
          mailbox = b.mailbox;
          closed = b.closed;
          last_null = b.last_null;
        })
        x e
  turn-IsBalanced crd crd' (endpoint_exit epid reason) random b x e up =
      exit-IsBalanced crd crd' epid reason b x (outcome-running _ crd' e) up
  turn-IsBalanced crd crd' kill random b x e up = cc
  turn-IsBalanced crd crd' (link from) random b x e up = cc
  turn-IsBalanced crd crd' (unlink from) random b x e up = cc
