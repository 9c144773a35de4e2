-- ===== src/Chord/Links/Check.antt =====
-- The consistency check that a node reports with its table (`linksok`).
use nreduce.Base.{
  ℕ, zero, suc, ◌+◌, ◌-◌, ◌≤◌, ◌<◌, Bool, true, false, ◌≡◌, refl, arith, List, [], ◌∷◌, not, ◌&&◌,
  ◌↔◌, sym, ap, ◌∙◌, Bool-cases, inl, inr, lt_or_eq,
}
use nreduce.Endpoint.{
  EndpointId, endpointid_equals, endpointid_isnull, all_ok, endpoint_has_link, link_ok_to_have,
  all_linked, endpoint_check_links,
}
use nreduce.Endpoint.Links.{endpointid_equals_refl, endpointid_equals_iff, all_ok_lem}
use nreduce.Chord.Types.{ChordNode, chordnode_isnull, Chord, mbits}
use nreduce.Chord.Table.{count_from, count_instances, finger_epids, check_links}
use nreduce.Chord.Links.Count.{instance-le-count}
use nreduce.Chord.Links.Balance.{exits}
use nreduce.Chord.Links.Moved.{Agree}
use nreduce.Chord.Links.Life.{Reach, Reach-Settled}

-- A node that is null by its address is null by its local identifier, and the other way round.
abbrev pub IsProper : ChordNode → Type 0
IsProper cn = chordnode_isnull cn ≡ endpointid_isnull cn.epid

-- An endpoint that a finger of a range names is one of that range's identifiers.
named-ok :
    (f : ℕ → ChordNode) (e : EndpointId) (i n : ℕ)
    → ((j : ℕ) → IsProper (f j))
    → 0 < count_from f e i n
    → link_ok_to_have (finger_epids f i n) e ≡ true
unfolding count_from finger_epids link_ok_to_have
named-ok f e i zero p h = absurd (omega arith)
named-ok f e i (suc n) p h = ground (arith, named-ok f e (suc i) n p, p i)

fingers-linked :
    (f : ℕ → ChordNode) (links : List EndpointId) (i n : ℕ)
    → ((j : ℕ)
        → i ≤ j
        → j < i + n
        → endpointid_isnull (f j).epid ≡ false
        → endpoint_has_link links (f j).epid ≡ true)
    → all_linked links (finger_epids f i n) ≡ true
unfolding all_linked finger_epids
fingers-linked f links i zero h = refl
fingers-linked f links i (suc n) h = ground (
  arith,
  h i (omega arith) (omega arith),
  fingers-linked f links (suc i) n (λ j l u. h j (omega arith) (omega arith)),
)

live-counted :
    (f : ℕ → ChordNode) (j : ℕ)
    → 1 ≤ j
    → j < mbits
    → IsProper (f j)
    → endpointid_isnull (f j).epid ≡ false
    → 0 < count_instances f (f j).epid
live-counted f j l u p live =
    ground (arith, instance-le-count f (f j).epid j, endpointid_equals_refl (f j).epid)

-- If links and fingers agree for every endpoint and the fingers are proper, the check succeeds.
check_links-Agree :
    (crd : Chord) (gone : EndpointId → Bool)
    → Agree gone crd.endpt.outlinks crd.fingers
    → ((e : EndpointId) → gone e ≡ false)
    → ((j : ℕ) → IsProper (crd.fingers j))
    → check_links crd ≡ true
unfolding check_links endpoint_check_links count_instances
check_links-Agree crd gone a none_gone p = ground (
  arith,
  fingers-linked crd.fingers crd.endpt.outlinks 1 (mbits - 1)
      (λ j l u live. linked j l (omega arith) live),
  all_ok_lem crd.endpt.outlinks (finger_epids crd.fingers 1 (mbits - 1))
      (λ e t. named-ok crd.fingers e 1 (mbits - 1) p (a.named e t)),
)
  where
    linked :
        (j : ℕ)
        → 1 ≤ j
        → j < mbits
        → endpointid_isnull (crd.fingers j).epid ≡ false
        → endpoint_has_link crd.endpt.outlinks (crd.fingers j).epid ≡ true
    linked j l u live =
        a.linked (crd.fingers j).epid (none_gone (crd.fingers j).epid)
          (live-counted crd.fingers j l u (p j) live)

-- Every link is to a proper endpoint that one of the fingers 1 to 7 names, and every proper endpoint
-- that they name has a link.
pub record LinksRight (crd : Chord) : Type 0 where
  pub named :
      (e : EndpointId)
      → endpoint_has_link crd.endpt.outlinks e ≡ true
      → (j : ℕ) × (1 ≤ j) × (j < mbits) × ((crd.fingers j).epid ≡ e) × (endpointid_isnull e ≡ false)
  pub linked :
      (j : ℕ)
      → 1 ≤ j
      → j < mbits
      → endpointid_isnull (crd.fingers j).epid ≡ false
      → endpoint_has_link crd.endpt.outlinks (crd.fingers j).epid ≡ true

module _ (f : ℕ → ChordNode) where
  ok-named :
      (e : EndpointId) (i n : ℕ)
      → link_ok_to_have (finger_epids f i n) e ≡ true
      → (j : ℕ) × (i ≤ j) × (j < i + n) × ((f j).epid ≡ e) × (endpointid_isnull e ≡ false)
  unfolding link_ok_to_have finger_epids
  ok-named e i zero h = cc
  ok-named e i (suc n) h =
      elim (Bool-cases (not (endpointid_isnull (f i).epid) && endpointid_equals (f i).epid e)) [
        | inl hit ↦
            let same : (f i).epid ≡ e = (endpointid_equals_iff (f i).epid e).0 (ground arith) in
            let live : endpointid_isnull (f i).epid ≡ false = ground arith in
            (i, omega arith, omega arith, same, ap endpointid_isnull (sym same) ∙ live)
        | inr miss ↦
            let (j, l, u, same, live) = ok-named e (suc i) n (rw (miss, link_ok_to_have) at h) in
            (j, omega arith, omega arith, same, live)
      ]

  named-link_ok :
      (e : EndpointId) (i n j : ℕ)
      → i ≤ j
      → j < i + n
      → (f j).epid ≡ e
      → endpointid_isnull e ≡ false
      → link_ok_to_have (finger_epids f i n) e ≡ true
  unfolding link_ok_to_have finger_epids
  named-link_ok e i zero j l u same live = absurd (omega arith)
  named-link_ok e i (suc n) j l u same live = elim (lt_or_eq i j (omega arith)) [
    | inr here ↦
        let first : (f i).epid ≡ e = ap (λ k. (f k).epid) here ∙ same in
        rw first (rw (live, endpointid_equals_refl e) refl)
    | inl above ↦ ground (arith, named-link_ok e (suc i) n j (omega arith) (omega arith) same live)
  ]

  all_linked-linked :
      (links : List EndpointId) (i n j : ℕ)
      → all_linked links (finger_epids f i n) ≡ true
      → i ≤ j
      → j < i + n
      → endpointid_isnull (f j).epid ≡ false
      → endpoint_has_link links (f j).epid ≡ true
  unfolding all_linked finger_epids
  all_linked-linked links i zero j h l u live = absurd (omega arith)
  all_linked-linked links i (suc n) j h l u live = elim (lt_or_eq i j (omega arith)) [
    | inr here ↦
        let live' : endpointid_isnull (f i).epid ≡ false =
          ap (λ k. endpointid_isnull (f k).epid) here ∙ live in
        ap (λ k. endpoint_has_link links (f k).epid) (sym here) ∙ ground arith
    | inl above ↦
        all_linked-linked links (suc i) n j (ground arith) (omega arith) (omega arith) live
  ]

all_ok-ok :
    (ls es : List EndpointId) (e : EndpointId)
    → all_ok ls es ≡ true
    → endpoint_has_link ls e ≡ true
    → link_ok_to_have es e ≡ true
unfolding all_ok endpoint_has_link
all_ok-ok [] es e h m = cc
all_ok-ok (l ∷ ls) es e h m = elim (Bool-cases (endpointid_equals l e)) [
  | inl hit ↦ ap (link_ok_to_have es) (sym ((endpointid_equals_iff l e).0 hit)) ∙ ground arith
  | inr miss ↦ all_ok-ok ls es e (ground arith) (rw (miss, endpoint_has_link) at m)
]

-- The check of the links that a node reports with its table succeeds exactly if every link is to a
-- proper endpoint that one of the fingers 1 to 7 names, and every proper endpoint that these name
-- has a link.
pub check_links_iff : (crd : Chord) → (check_links crd ≡ true) ↔ LinksRight crd
unfolding check_links endpoint_check_links
check_links_iff crd =
    let epids = finger_epids crd.fingers 1 (mbits - 1) in
    (
      λ h. record {
        named = λ e m.
            ok-named crd.fingers e 1 (mbits - 1)
              (all_ok-ok crd.endpt.outlinks epids e (ground arith) m);
        linked = λ j l u live.
            all_linked-linked crd.fingers crd.endpt.outlinks 1 (mbits - 1) j (ground arith) l
              (omega arith) live;
      },
      λ r. ground (
        arith,
        fingers-linked crd.fingers crd.endpt.outlinks 1 (mbits - 1)
            (λ j l u live. r.linked j l (omega arith) live),
        all_ok_lem crd.endpt.outlinks epids (λ e m.
            let (j, l, u, same, live) = r.named e m in
            named-link_ok crd.fingers e 1 (mbits - 1) j l (omega arith) same live),
      ),
    )

-- In a reachable state with no exit notice waiting, and with proper fingers, the table that the node
-- reports says that its links are in order.
pub check_links-Reach :
    (crd : Chord)
    → Reach crd
    → ((e : EndpointId) → exits crd.endpt.mailbox e ≡ false)
    → ((j : ℕ) → IsProper (crd.fingers j))
    → check_links crd ≡ true
check_links-Reach crd r quiet p =
    check_links-Agree crd (exits crd.endpt.mailbox) (Reach-Settled r).agree quiet p
