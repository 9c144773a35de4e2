-- ===== src/Endpoint/Exit.antt =====
-- The end of an endpoint (node.c): its links, and the notices that it sends.
use mathlib.Core.List.{
  append_assoc, append-nil, Mem, mem-cons_self, mem-cons_of_mem, mem-append_right,
}
use nreduce.Base.{
  subst, Bool, true, false, not, List, [], ◌∷◌, ◌++◌, ◌≡◌, refl, sym, ◌∙◌, arith, some,
  if◌then◌else◌, >>=-eq-some, inl, inr, Bool-cases,
}
use nreduce.Endpoint.{
  EndpointId, endpointid_equals, endpoint_has_link, endpoint_list_remove, Packet, link, unlink,
  endpoint_exit, kill, user, Endpoint, endpoint_send, deliver, endpoint_add_message, exit_notices,
}
use nreduce.Endpoint.Links.{endpointid_equals_iff, endpointid_equals_refl, has_link-cons}
use nreduce.Endpoint.Mailbox.{arrive}

has_link-remove-other :
    (ls : List EndpointId) (a e : EndpointId)
    → endpointid_equals a e ≡ false
    → endpoint_has_link (endpoint_list_remove ls a) e ≡ endpoint_has_link ls e
unfolding endpoint_list_remove endpoint_has_link
has_link-remove-other [] a e n = refl
has_link-remove-other (l ∷ ls) a e n = ground (
  arith,
  has_link-remove-other ls a e n,
  endpointid_equals_iff l a,
  endpointid_equals_iff l e,
  endpointid_equals_iff a e,
)

module _ {M : Type 0} where
  -- Another endpoint that withdraws its link or exits.
  abbrev pub withdraws : EndpointId → Packet M → Bool
  withdraws peer (unlink e) = endpointid_equals e peer
  withdraws peer (endpoint_exit e reason) = endpointid_equals e peer
  withdraws peer (link e) = false
  withdraws peer kill = false
  withdraws peer (user m) = false

  abbrev pub NoneWithdraws : EndpointId → List (Packet M) → Type 0
  NoneWithdraws peer [] = Unit
  NoneWithdraws peer (msg ∷ msgs) = (withdraws peer msg ≡ false) × NoneWithdraws peer msgs

  add_message-inlinks :
      (endpt endpt' : Endpoint M) (msg : Packet M) (peer : EndpointId)
      → withdraws peer msg ≡ false
      → endpoint_has_link endpt.inlinks peer ≡ true
      → endpoint_add_message endpt msg ≡ some endpt'
      → (endpoint_has_link endpt'.inlinks peer ≡ true) × (endpt'.epid ≡ endpt.epid)
  unfolding endpoint_add_message deliver
  add_message-inlinks endpt endpt' (link e) peer w h a =
      ground (arith, has_link-cons e endpt.inlinks peer)
  add_message-inlinks endpt endpt' (unlink e) peer w h a =
      ground (arith, has_link-remove-other endpt.inlinks e peer w)
  add_message-inlinks endpt endpt' (endpoint_exit e reason) peer w h a =
      ground (arith, has_link-remove-other endpt.inlinks e peer w)
  add_message-inlinks endpt endpt' kill peer w h a = ground arith
  add_message-inlinks endpt endpt' (user m) peer w h a = ground arith

  arrive-inlinks :
      (endpt endpt' : Endpoint M) (msgs : List (Packet M)) (peer : EndpointId)
      → NoneWithdraws peer msgs
      → endpoint_has_link endpt.inlinks peer ≡ true
      → arrive endpt msgs ≡ some endpt'
      → (endpoint_has_link endpt'.inlinks peer ≡ true) × (endpt'.epid ≡ endpt.epid)
  unfolding arrive
  arrive-inlinks endpt endpt' [] peer w h a = ground arith
  arrive-inlinks endpt endpt' (msg ∷ msgs) peer w h a =
      let (mid, first, later) = >>=-eq-some (endpoint_add_message endpt msg) _ a in
      let (kept, named) = add_message-inlinks endpt mid msg peer w.0 h first in
      let (ends, same) = arrive-inlinks mid endpt' msgs peer w.1 kept later in (ends, same ∙ named)

  -- The notices, as a list.
  abbrev pub notices : EndpointId → List EndpointId → List (EndpointId × Packet M)
  notices self [] = []
  notices self (l ∷ ls) =
      if not (endpointid_equals self l)
      then (l, endpoint_exit self 1) ∷ notices self ls
      else notices self ls

  after_notice : Endpoint M → EndpointId → Endpoint M
  after_notice endpt l = record endpt { sent = endpt.sent ++ (l, endpoint_exit endpt.epid 1) ∷ [] }

  exit_notices_self :
      (endpt : Endpoint M) (l : EndpointId) (ls : List EndpointId)
      → endpointid_equals endpt.epid l ≡ true
      → exit_notices endpt (l ∷ ls) ≡ exit_notices endpt ls
  unfolding exit_notices
  exit_notices_self endpt l ls h = rw (exit_notices, h) refl

  exit_notices_other :
      (endpt : Endpoint M) (l : EndpointId) (ls : List EndpointId)
      → endpointid_equals endpt.epid l ≡ false
      → exit_notices endpt (l ∷ ls) ≡ exit_notices (after_notice endpt l) ls
  unfolding exit_notices endpoint_send after_notice
  exit_notices_other endpt l ls h = rw h refl

  exit_notices-sent :
      (endpt : Endpoint M) (ls : List EndpointId)
      → (exit_notices endpt ls).sent ≡ endpt.sent ++ notices endpt.epid ls
  unfolding exit_notices after_notice
  exit_notices-sent endpt [] = sym (append-nil endpt.sent)
  exit_notices-sent endpt (l ∷ ls) = elim (Bool-cases (endpointid_equals endpt.epid l)) [
    | inl self ↦ rw (exit_notices_self endpt l ls self, self) (exit_notices-sent endpt ls)
    | inr other ↦
        rw (exit_notices_other endpt l ls other, other)
          (exit_notices-sent (after_notice endpt l) ls
            ∙ append_assoc endpt.sent ((l, endpoint_exit endpt.epid 1) ∷ [])
                (notices endpt.epid ls))
  ]

  told-notices :
      (self peer : EndpointId) (ls : List EndpointId)
      → endpointid_equals self peer ≡ false
      → endpoint_has_link ls peer ≡ true
      → Mem {A = EndpointId × Packet M} (peer, endpoint_exit self 1) (notices self ls)
  unfolding endpoint_has_link
  told-notices self peer [] n h = cc
  told-notices self peer (l ∷ ls) n h = elim (Bool-cases (endpointid_equals l peer)) [
    | inl here ↦ let e : l ≡ peer = (endpointid_equals_iff l peer).0 here in rw (e, n) mem-cons_self
    | inr later ↦
        let rest = told-notices self peer ls n (rw later at h) in
        elim (Bool-cases (endpointid_equals self l)) [
          | inl own ↦ rw own rest
          | inr other ↦ rw other (mem-cons_of_mem (l, endpoint_exit self 1) rest)
        ]
  ]

  -- An endpoint that another has linked to, and that has since neither withdrawn its link nor
  -- exited, sends that other an exit notice when it ends, whatever else has arrived.
  pub linked-told :
      (endpt endpt' : Endpoint M) (peer : EndpointId) (msgs : List (Packet M))
      → endpointid_equals endpt.epid peer ≡ false
      → NoneWithdraws peer msgs
      → arrive endpt (link peer ∷ msgs) ≡ some endpt'
      → Mem (peer, endpoint_exit endpt.epid 1) (exit_notices endpt' endpt'.inlinks).sent
  unfolding arrive endpoint_add_message
  linked-told endpt endpt' peer msgs n w h =
      let (mid, first, later) = >>=-eq-some (endpoint_add_message endpt (link peer)) _ h in
      let linked : (endpoint_has_link mid.inlinks peer ≡ true) × (mid.epid ≡ endpt.epid) =
        ground (arith, has_link-cons peer endpt.inlinks peer, endpointid_equals_refl peer) in
      let (kept, same) = arrive-inlinks mid endpt' msgs peer w linked.0 later in
      let named : endpt'.epid ≡ endpt.epid = same ∙ linked.1 in
      let told = told-notices endpt'.epid peer endpt'.inlinks (rw named n) kept in
      subst (λ s. Mem (peer, endpoint_exit s 1) (exit_notices endpt' endpt'.inlinks).sent) named
        (subst (Mem (peer, endpoint_exit endpt'.epid 1))
          (sym (exit_notices-sent endpt' endpt'.inlinks)) (mem-append_right endpt'.sent told))
