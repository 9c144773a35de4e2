-- ===== src/Endpoint.antt =====
-- Endpoint identifiers and the outgoing links of an endpoint (nreduce/network/node.h and node.c).
-- A link is kept on both sides: the list `outlinks` here, and a LINK or UNLINK message to the peer.
pub mod Links
pub mod Mailbox
pub mod Exit
mod Tests
use nreduce.Base.{
  ℕ, Bool, true, false, ◌&&◌, not, List, [], ◌∷◌, ◌++◌, Option, none, some, ◌==◌, if◌then◌else◌,
}

-- `struct endpointid`
pub record EndpointId : Type 0 where
  pub ip : ℕ
  pub port : ℕ
  pub localid : ℕ

unfoldable pub endpointid_equals : EndpointId → EndpointId → Bool
endpointid_equals e1 e2 = e1.ip == e2.ip && (e1.port == e2.port && e1.localid == e2.localid)

abbrev pub endpointid_isnull : EndpointId → Bool
endpointid_isnull epid = epid.localid == 0

-- Is there a link to `epid`? (`endpoint_has_link`)
unfoldable pub endpoint_has_link : List EndpointId → EndpointId → Bool
endpoint_has_link [] epid = false
endpoint_has_link (l ∷ ls) epid =
    if endpointid_equals l epid then true else endpoint_has_link ls epid

-- The first occurrence is unlinked from the list.
unfoldable pub endpoint_list_remove : List EndpointId → EndpointId → List EndpointId
endpoint_list_remove [] to = []
endpoint_list_remove (l ∷ ls) to =
    if endpointid_equals l to then ls else l ∷ endpoint_list_remove ls to

-- `epids` of an array of identifiers: may an endpoint with these peers hold a link to `epid`?
unfoldable pub link_ok_to_have : List EndpointId → EndpointId → Bool
link_ok_to_have [] epid = false
link_ok_to_have (e ∷ es) epid =
    if not (endpointid_isnull e) && endpointid_equals e epid then true else link_ok_to_have es epid

-- The first loop of `endpoint_check_links`: each identifier that is not null has a link.
unfoldable pub all_linked : List EndpointId → List EndpointId → Bool
all_linked outlinks [] = true
all_linked outlinks (e ∷ es) =
    (if not (endpointid_isnull e) && not (endpoint_has_link outlinks e) then false else true)
    && all_linked outlinks es

-- The second loop: each link is one of the identifiers.
unfoldable pub all_ok : List EndpointId → List EndpointId → Bool
all_ok [] epids = true
all_ok (l ∷ ls) epids = link_ok_to_have epids l && all_ok ls epids

unfoldable pub endpoint_check_links : List EndpointId → List EndpointId → Bool
unfolding all_linked all_ok
endpoint_check_links outlinks epids = all_linked outlinks epids && all_ok outlinks epids

-- A message by its tag, with what it carries; `user` holds the tags that the node itself does not
-- interpret.
pub data Packet (M : Type 0) : Type 0 where
  link : EndpointId → Packet M
  unlink : EndpointId → Packet M
  endpoint_exit : EndpointId → (reason : ℕ) → Packet M
  kill : Packet M
  user : M → Packet M

-- `struct endpoint` with its private part: the links, the mailbox, and the messages that it has
-- handed to `node_send_locked`, oldest first.
pub record Endpoint (M : Type 0) : Type 0 where
  pub epid : EndpointId
  pub inlinks : List EndpointId
  pub outlinks : List EndpointId
  pub mailbox : List (Packet M)
  pub closed : Bool
  pub sent : List (EndpointId × Packet M)

module _ {M : Type 0} where
  unfoldable pub endpoint_send : Endpoint M → EndpointId → Packet M → Endpoint M
  endpoint_send endpt dest msg = record endpt { sent = endpt.sent ++ (dest, msg) ∷ [] }

  unfoldable pub endpoint_link_locked : Endpoint M → EndpointId → Endpoint M
  unfolding endpoint_send
  endpoint_link_locked endpt to =
      if endpoint_has_link endpt.outlinks to
      then endpt
      else endpoint_send (record endpt { outlinks = to ∷ endpt.outlinks }) to (link endpt.epid)

  unfoldable pub endpoint_unlink_locked : Endpoint M → EndpointId → Endpoint M
  unfolding endpoint_send
  endpoint_unlink_locked endpt to =
      endpoint_send (record endpt { outlinks = endpoint_list_remove endpt.outlinks to }) to
        (unlink endpt.epid)

  -- With the assertion that the identifier is not null; `none` is a failed assertion.
  unfoldable pub endpoint_link : Endpoint M → EndpointId → Option (Endpoint M)
  endpoint_link endpt to =
      if endpointid_isnull to then none else some (endpoint_link_locked endpt to)

  unfoldable pub endpoint_unlink : Endpoint M → EndpointId → Endpoint M
  unfolding endpoint_unlink_locked
  endpoint_unlink endpt to = endpoint_unlink_locked endpt to

  -- The mailbox of an endpoint that is closed takes no more messages.
  unfoldable pub deliver : Endpoint M → Packet M → Endpoint M
  deliver endpt msg =
      if endpt.closed then endpt else record endpt { mailbox = endpt.mailbox ++ msg ∷ [] }

  -- A message arrives. LINK and UNLINK are consumed; an exit notice also drops the links to its
  -- sender, before the endpoint has read it.
  unfoldable pub endpoint_add_message : Endpoint M → Packet M → Option (Endpoint M)
  unfolding deliver
  endpoint_add_message endpt (link from) =
      if endpointid_isnull from
      then none
      else some (record endpt { inlinks = from ∷ endpt.inlinks })
  endpoint_add_message endpt (unlink from) =
      some (record endpt { inlinks = endpoint_list_remove endpt.inlinks from })
  endpoint_add_message endpt (endpoint_exit from reason) = some (
      deliver
        (record endpt {
          inlinks = endpoint_list_remove endpt.inlinks from;
          outlinks = endpoint_list_remove endpt.outlinks from;
        })
        (endpoint_exit from reason))
  endpoint_add_message endpt kill = some (deliver endpt kill)
  endpoint_add_message endpt (user m) = some (deliver endpt (user m))

  -- What `endpoint_receive` returns when it does not wait, or when the wait is over.
  unfoldable pub endpoint_receive : Endpoint M → Endpoint M × Option (Packet M)
  endpoint_receive endpt = elim endpt.mailbox [
    | [] ↦ (endpt, none)
    | msg ∷ rest ↦ (record endpt { mailbox = rest }, some msg)
  ]

  -- The notices that `endpoint_thread` sends when its function has returned.
  unfoldable pub exit_notices : Endpoint M → List EndpointId → Endpoint M
  unfolding endpoint_send
  exit_notices endpt [] = endpt
  exit_notices endpt (l ∷ ls) =
      exit_notices
        (if not (endpointid_equals endpt.epid l)
          then endpoint_send endpt l (endpoint_exit endpt.epid 1)
          else endpt)
        ls
