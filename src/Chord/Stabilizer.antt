-- ===== src/Chord/Stabilizer.antt =====
-- The stabilizer (chord.c): a thread beside each node that reminds it to refresh its table, until the
-- node exits. The delays are those of the events that the thread receives.
use nreduce.Base.{
  ℕ, zero, suc, Bool, true, false, ◌≡◌, List, [], ◌∷◌, ◌++◌, Option, none, some, ◌>>=◌, ◌>>◌,
  assert, if◌then◌else◌,
}
use nreduce.Endpoint.{
  EndpointId, endpointid_equals, Endpoint, Packet, link, unlink, endpoint_exit, kill, user,
  endpoint_send, endpoint_link,
}
use nreduce.Chord.Types.{ChordMsg, stabilize}

-- The link to the node, and the first reminder; `none` is a failed assertion.
unfoldable pub stabilizer_start : Endpoint ChordMsg → EndpointId → Option (Endpoint ChordMsg)
stabilizer_start endpt chord_epid = endpoint_link endpt chord_epid >>= λ linked.
    some (endpoint_send linked chord_epid (user stabilize))

-- One round of the loop, on what `endpoint_receive` returned: the endpoint, and whether the thread
-- is done. An exit notice must be that of the node; any other message aborts the process.
unfoldable pub stabilizer_step :
    Endpoint ChordMsg → EndpointId → Option (Packet ChordMsg) → Option (Endpoint ChordMsg × Bool)
stabilizer_step endpt chord_epid none =
    some (endpoint_send endpt chord_epid (user stabilize), false)
stabilizer_step endpt chord_epid (some (endpoint_exit epid reason)) = do
  assert (endpointid_equals epid chord_epid)
  some (endpt, true)
stabilizer_step endpt chord_epid (some kill) = some (endpt, true)
stabilizer_step endpt chord_epid (some (link from)) = none
stabilizer_step endpt chord_epid (some (unlink from)) = none
stabilizer_step endpt chord_epid (some (user m)) = none

-- The loop over what is received in turn; the list ends when nothing more has been received yet.
unfoldable pub stabilizer_loop :
    Endpoint ChordMsg
    → EndpointId
    → List (Option (Packet ChordMsg))
    → Option (Endpoint ChordMsg × Bool)
stabilizer_loop endpt chord_epid [] = some (endpt, false)
stabilizer_loop endpt chord_epid (msg ∷ msgs) =
    stabilizer_step endpt chord_epid msg >>= λ (e, over).
    let rest = stabilizer_loop e chord_epid msgs in if over then some (e, true) else rest

unfoldable pub stabilizer_thread :
    Endpoint ChordMsg
    → EndpointId
    → List (Option (Packet ChordMsg))
    → Option (Endpoint ChordMsg × Bool)
stabilizer_thread endpt chord_epid msgs =
    stabilizer_start endpt chord_epid >>= λ e. stabilizer_loop e chord_epid msgs

-- `n` times out.
abbrev pub timeouts : ℕ → List (Option (Packet ChordMsg)) → List (Option (Packet ChordMsg))
timeouts zero after = after
timeouts (suc n) after = none ∷ timeouts n after

abbrev pub reminders : EndpointId → ℕ → List (EndpointId × Packet ChordMsg)
reminders chord_epid zero = []
reminders chord_epid (suc n) = (chord_epid, user stabilize) ∷ reminders chord_epid n

-- What the thread has done by its end.
pub record IsOver (endpt : Endpoint ChordMsg) (chord_epid : EndpointId) (n : ℕ)
    (last : Endpoint ChordMsg) : Type 0 where
  pub reminded : last.sent ≡ endpt.sent ++ reminders chord_epid n
  pub same_links : last.outlinks ≡ endpt.outlinks
