-- ===== src/Chord/Join.antt =====
-- The handlers of a join (`chord_find_successor`, `chord_insert` and `chord_set_next` of chord.c): what each leaves.
pub mod Messages
use nreduce.Chord.Success.{set_finger-some, LastSent}
use nreduce.Base.{
  inr, ap, subst, ==-refl, ℕ, ◌<◌, true, false, ◌&&◌, ◌||◌, ◌≡◌, refl, arith, ◌==◌, some, ◌∙◌,
  >>=-eq-some, assert,
}
use nreduce.Endpoint.{endpointid_equals, endpointid_isnull, endpoint_send}
use nreduce.Endpoint.Links.{endpointid_equals_refl}
use nreduce.Chord.Types.{
  ChordNode, chordnode_isnull, Chord, keyspace, FindSuccessorMsg, InsertMsg, SetNextMsg, insert,
  set_next,
}
use nreduce.Chord.Interval.{
  inrange_open, inrange_open_closed, inrange_open-clockwise, inrange_open_closed-clockwise,
}
use nreduce.Chord.Table.{set_finger, set_successor}
use nreduce.Chord.Handlers.{
  send, answer, chord_find_successor, chord_notify_joined, chord_insert, chord_set_next,
}
use nreduce.Chord.Links.Balance.{set_finger-Changed}

-- The two sides of an accepted join. The new node takes the successor that it was told of, and the
-- old node takes the new one for its own successor.
pub record Joined (before old new : Chord) : Type 0 where
  pub old_successor : old.fingers 1 ≡ new.self
  pub new_successor : new.fingers 1 ≡ before.fingers 1
  pub arcs :
      (id : ℕ)
      → id < keyspace
      → inrange_open_closed id before.self.id (before.fingers 1).id ≡ (
          inrange_open_closed id old.self.id (old.fingers 1).id
          || inrange_open_closed id new.self.id (new.fingers 1).id)
  pub disjoint :
      (id : ℕ)
      → id < keyspace
      → (inrange_open_closed id old.self.id (old.fingers 1).id
          && inrange_open_closed id new.self.id (new.fingers 1).id)
        ≡ false

-- The arc of a node, split at an identifier strictly inside it.
split_arc :
    (a n s id : ℕ)
    → a < keyspace
    → n < keyspace
    → s < keyspace
    → id < keyspace
    → inrange_open n a s ≡ true
    → (inrange_open_closed id a s ≡ (inrange_open_closed id a n || inrange_open_closed id n s))
      × ((inrange_open_closed id a n && inrange_open_closed id n s) ≡ false)
split_arc a n s id ha hn hs hi inside = ground (
  arith,
  inrange_open-clockwise n a s,
  inrange_open_closed-clockwise id a s,
  inrange_open_closed-clockwise id a n,
  inrange_open_closed-clockwise id n s,
)

pub insert-fingers :
    (crd crd' : Chord) (m : InsertMsg) (random : ℕ)
    → (m.successor.id == crd.self.id) ≡ false
    → chord_insert crd m random ≡ some crd'
    → (crd'.fingers 1 ≡ m.successor) × (crd'.self ≡ crd.self)
unfolding chord_insert set_successor send
insert-fingers crd crd' m random free e =
    let (c, set, done) =
      >>=-eq-some (set_finger crd 1 m.successor) _ (rw (free, chord_insert) at e) in
    let ch = set_finger-Changed crd 1 m.successor c set in
    let f : crd'.fingers ≡ c.fingers = cc in
    let s : crd'.self ≡ c.self = cc in (rw f ch.here, s ∙ ch.self)

notify-fingers :
    (crd : Chord) (cn : ChordNode)
    → ((chord_notify_joined crd cn).fingers ≡ crd.fingers)
      × ((chord_notify_joined crd cn).self ≡ crd.self)
unfolding chord_notify_joined send
notify-fingers crd cn = (ground arith, ground arith)

set_next-fingers :
    (crd crd' : Chord) (m : SetNextMsg)
    → m.old_successor ≡ crd.fingers 1
    → chord_set_next crd m ≡ some crd'
    → (crd'.fingers 1 ≡ m.new_successor) × (crd'.self ≡ crd.self)
unfolding chord_set_next set_successor
set_next-fingers crd crd' m same e =
    let told : endpointid_equals m.old_successor.epid (crd.fingers 1).epid ≡ true =
      rw same (endpointid_equals_refl (crd.fingers 1).epid) in
    let (_, _, e1) =
      >>=-eq-some (assert (m.old_successor.id == (crd.fingers 1).id)) _
        (rw (told, chord_set_next) at e) in
    let (c, set, done) = >>=-eq-some (set_finger crd 1 m.new_successor) _ e1 in
    let ch = set_finger-Changed crd 1 m.new_successor c set in
    let n = notify-fingers c m.new_successor in
    let out : chord_notify_joined c m.new_successor ≡ crd' = cc in
    rw (← out, n.0, n.1) (ch.here, ch.self)

pub accepted-Joined :
    (old new old' new' : Chord) (random : ℕ)
    → old.self.id < keyspace
    → new.self.id < keyspace
    → (old.fingers 1).id < keyspace
    → inrange_open new.self.id old.self.id (old.fingers 1).id ≡ true
    → chord_insert new (record { predecessor = old.self.epid; successor = old.fingers 1 }) random
      ≡ some new'
    → chord_set_next old (record { new_successor = new'.self; old_successor = old.fingers 1 })
      ≡ some old'
    → Joined old old' new'
accepted-Joined old new old' new' random ho hn hs inside joins accepts =
    let free : ((old.fingers 1).id == new.self.id) ≡ false =
      ground (arith, inrange_open-clockwise new.self.id old.self.id (old.fingers 1).id) in
    let (taken, named) = insert-fingers new new' _ random free joins in
    let (next, kept) = set_next-fingers old old' _ refl accepts in
    record {
      old_successor = next;
      new_successor = taken;
      arcs = λ id h.
          rw (next, taken, kept, named)
            (split_arc old.self.id new.self.id (old.fingers 1).id id ho hn hs h inside).0;
      disjoint = λ id h.
          rw (next, taken, kept, named)
            (split_arc old.self.id new.self.id (old.fingers 1).id id ho hn hs h inside).1;
    }

pub insert-some :
    (crd : Chord) (m : InsertMsg) (random : ℕ)
    → (m.successor.id == crd.self.id) ≡ false
    → endpointid_isnull m.successor.epid ≡ false
    → (crd' : Chord) × (chord_insert crd m random ≡ some crd')
unfolding chord_insert set_successor
insert-some crd m random free proper =
    let (c, set) = set_finger-some crd 1 m.successor (omega arith) (inr proper) in
    (
      send c m.predecessor
          (set_next (record { new_successor = c.self; old_successor = m.successor })),
      rw (free, set) refl,
    )

pub set_next-some :
    (crd : Chord) (cn : ChordNode)
    → endpointid_isnull cn.epid ≡ false
    → (crd' : Chord) × (chord_set_next crd
          (record { new_successor = cn; old_successor = crd.fingers 1 })
        ≡ some crd')
unfolding chord_set_next set_successor
set_next-some crd cn proper =
    let (c, set) = set_finger-some crd 1 cn (omega arith) (inr proper) in
    (
      chord_notify_joined c cn,
      rw
          (
            endpointid_equals_refl (crd.fingers 1).epid,
            ==-refl (crd.fingers 1).id (crd.fingers 1).id refl,
            set,
          )
          refl,
    )
