-- ===== src/Chord/Links/Moved.antt =====
-- A change of a finger (`set_noderef`): the links and the fingers before it and after it.
use nreduce.Base.{
  ℕ, ◌≤◌, ◌<◌, Bool, true, false, ◌&&◌, ◌≡◌, refl, arith, if◌then◌else◌, ◌==◌, List, ◌∷◌, Option,
  some, none, ◌>>=◌, Bool-cases, inl, inr, ◌⊎◌, ap, ◌∙◌, ◌&&◌, ◌∙◌, ◌≢◌,
}
use nreduce.Endpoint.{
  EndpointId, Endpoint, endpointid_equals, endpoint_has_link, endpoint_list_remove, endpoint_link,
  endpoint_unlink, endpoint_link_locked, endpoint_unlink_locked, endpoint_send,
}
use nreduce.Endpoint.Links.{
  endpointid_equals_iff, Distinct, has_link-cons, has_link-remove, remove-Distinct,
}
use nreduce.Chord.Types.{ChordMsg, ChordNode, chordnode_isnull, null_node, Chord, update, mbits}
use nreduce.Chord.Table.{count_instances, unlink_old, link_new, set_noderef}
use nreduce.Chord.Links.Count.{count_instances-update}

-- A list of links and a table of fingers agree, but for the endpoints that are gone: those may be
-- named by fingers and have lost their link.
pub record Agree (gone : EndpointId → Bool) (links : List EndpointId) (fingers : ℕ → ChordNode)
    : Type 0 where
  pub named : (e : EndpointId) → endpoint_has_link links e ≡ true → 0 < count_instances fingers e
  pub linked :
      (e : EndpointId)
      → gone e ≡ false
      → 0 < count_instances fingers e
      → endpoint_has_link links e ≡ true
  pub distinct : Distinct links

-- The links after the old endpoint of finger `k` has been dropped, if only that finger named it.
abbrev pub dropped : List EndpointId → (ℕ → ChordNode) → ℕ → List EndpointId
dropped links f k =
    if (if chordnode_isnull (f k) then 0 else count_instances f (f k).epid) == 1
    then endpoint_list_remove links (f k).epid
    else links

abbrev pub added : List EndpointId → ChordNode → List EndpointId
added links cn =
    if chordnode_isnull cn
    then links
    else if endpoint_has_link links cn.epid
    then links
    else cn.epid ∷ links

module _ {gone : EndpointId → Bool} (links : List EndpointId) (f : ℕ → ChordNode) (k : ℕ)
    (h : 1 ≤ k) (g : k < mbits) (a : Agree gone links f) where
  -- After the old endpoint is dropped the links agree with a table that has a hole at `k`.
  Agree-dropped : Agree gone (dropped links f k) (update f k null_node)
  unfolding chordnode_isnull
  Agree-dropped = record {
    named = λ e t. ground (
      arith,
      a.named e,
      has_link-remove links (f k).epid e a.distinct,
      endpointid_equals_iff (f k).epid e,
      count_instances-update f e k null_node h g,
    );
    linked = λ e n t. ground (
      arith,
      a.linked e,
      has_link-remove links (f k).epid e a.distinct,
      endpointid_equals_iff (f k).epid e,
      count_instances-update f e k null_node h g,
    );
    distinct = ground (arith, remove-Distinct links (f k).epid a.distinct, a.distinct);
  }

  Agree-added :
      (cn : ChordNode) (links' : List EndpointId)
      → Agree gone links' (update f k null_node)
      → Agree gone (added links' cn) (update f k cn)
  unfolding chordnode_isnull
  Agree-added cn links' a' = record {
    named = λ e t. ground (
      arith,
      a'.named e,
      has_link-cons cn.epid links' e,
      endpointid_equals_iff cn.epid e,
      count_instances-update f e k null_node h g,
      count_instances-update f e k cn h g,
    );
    linked = λ e n t. ground (
      arith,
      a'.linked e,
      has_link-cons cn.epid links' e,
      endpointid_equals_iff cn.epid e,
      count_instances-update f e k null_node h g,
      count_instances-update f e k cn h g,
    );
    distinct = ground (arith, a'.distinct);
  }

  pub Agree-update : (cn : ChordNode) → Agree gone (added (dropped links f k) cn) (update f k cn)
  Agree-update cn = Agree-added cn (dropped links f k) Agree-dropped

pub link_new-outlinks :
    (endpt endpt' : Endpoint ChordMsg) (cn : ChordNode)
    → link_new endpt cn ≡ some endpt'
    → endpt'.outlinks ≡ added endpt.outlinks cn
unfolding link_new endpoint_link endpoint_link_locked endpoint_send
link_new-outlinks endpt endpt' cn e = ground arith

pub unlink_old-outlinks :
    (endpt : Endpoint ChordMsg) (f : ℕ → ChordNode) (k : ℕ)
    → (unlink_old endpt f k).outlinks ≡ dropped endpt.outlinks f k
unfolding unlink_old endpoint_unlink endpoint_unlink_locked endpoint_send
unlink_old-outlinks endpt f k = ground arith

pub moved-kept :
    (endpt endpt' : Endpoint ChordMsg) (f : ℕ → ChordNode) (k : ℕ) (cn : ChordNode)
    → link_new (unlink_old endpt f k) cn ≡ some endpt'
    → (endpt'.mailbox ≡ endpt.mailbox) × (endpt'.closed ≡ endpt.closed)
unfolding link_new unlink_old endpoint_link endpoint_link_locked endpoint_unlink
    endpoint_unlink_locked endpoint_send
moved-kept endpt endpt' f k cn e = ground arith

-- What a successful change of a finger leaves behind: nothing changes if the finger holds that
-- node already; else the finger holds it, and the links have moved along.
pub record Changed (crd : Chord) (k : ℕ) (cn : ChordNode) (crd' : Chord) : Type 0 where
  pub fingers :
      (crd' ≡ crd)
      ⊎ ((crd'.fingers ≡ update crd.fingers k cn)
          × (crd'.endpt.outlinks ≡ added (dropped crd.endpt.outlinks crd.fingers k) cn))
  pub here : crd'.fingers k ≡ cn
  pub elsewhere : (j : ℕ) → k ≢ j → crd'.fingers j ≡ crd.fingers j
  pub self : crd'.self ≡ crd.self
  pub successors : crd'.successors ≡ crd.successors
  pub mailbox : crd'.endpt.mailbox ≡ crd.endpt.mailbox
  pub closed : crd'.endpt.closed ≡ crd.endpt.closed

pub same_node : (a b : ChordNode) → a.id == b.id && endpointid_equals a.epid b.epid ≡ true → a ≡ b
same_node a b h = ground (arith, endpointid_equals_iff a.epid b.epid)

pub set_noderef-moved :
    (crd : Chord) (k : ℕ) (cn : ChordNode) (crd' : Chord) (moved : Option (Endpoint ChordMsg))
    → link_new (unlink_old crd.endpt crd.fingers k) cn ≡ moved
    → (moved >>= λ endpt'. some (record crd { fingers = update crd.fingers k cn; endpt = endpt' }))
      ≡ some crd'
    → Changed crd k cn crd'
set_noderef-moved crd k cn crd' none m e = cc
set_noderef-moved crd k cn crd' (some endpt') m e =
    let links : crd'.endpt.outlinks ≡ endpt'.outlinks = cc in
    let box : crd'.endpt.mailbox ≡ endpt'.mailbox = cc in
    let shut : crd'.endpt.closed ≡ endpt'.closed = cc in
    let kept = moved-kept crd.endpt endpt' crd.fingers k cn m in
    record {
      fingers = inr (
        cc,
        links
            ∙ link_new-outlinks (unlink_old crd.endpt crd.fingers k) endpt' cn m
            ∙ ap (λ l. added l cn) (unlink_old-outlinks crd.endpt crd.fingers k),
      );
      here = table-here;
      elsewhere = table-elsewhere;
      self = cc;
      successors = cc;
      mailbox = box ∙ kept.0;
      closed = shut ∙ kept.1;
    }
  where
    table : crd'.fingers ≡ update crd.fingers k cn
    table = cc

    table-here : crd'.fingers k ≡ cn
    table-here = rw table (ground arith)

    table-elsewhere : (j : ℕ) → k ≢ j → crd'.fingers j ≡ crd.fingers j
    table-elsewhere j n = rw table (ground arith)

pub set_noderef-Changed :
    (crd : Chord) (k : ℕ) (cn : ChordNode) (crd' : Chord)
    → set_noderef crd k cn ≡ some crd'
    → Changed crd k cn crd'
unfolding set_noderef
set_noderef-Changed crd k cn crd' e =
    elim (Bool-cases
      ((crd.fingers k).id == cn.id && endpointid_equals (crd.fingers k).epid cn.epid)) [
        | inl same ↦
            let e' : some crd ≡ some crd' = rw (same, set_noderef) at e in
            let kept : crd ≡ crd' = cc in
            record {
              fingers = inl (cc);
              here = rw (← kept) (same_node (crd.fingers k) cn same);
              elsewhere = λ j n. rw (← kept) refl;
              self = cc;
              successors = cc;
              mailbox = cc;
              closed = cc;
            }
        | inr differ ↦ set_noderef-moved crd k cn crd' _ refl (rw (differ, set_noderef) at e)
      ]
