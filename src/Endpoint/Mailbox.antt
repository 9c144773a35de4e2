-- ===== src/Endpoint/Mailbox.antt =====
-- The mailbox of an endpoint (node.c): what reaches it, and in which order it is read.
use mathlib.Core.List.{append_assoc, append-nil}
use nreduce.Base.{
  ℕ, length, Bool, true, false, List, [], ◌∷◌, ◌++◌, ◌≡◌, refl, sym, ap, ◌∙◌, arith, Option, some,
  none, ◌>>=◌, if◌then◌else◌, >>=-eq-some, inl, inr, Bool-cases,
}
use nreduce.Endpoint.{
  Packet, link, unlink, endpoint_exit, kill, user, Endpoint, deliver, endpoint_add_message,
  endpoint_receive,
}

module _ {M : Type 0} where
  -- The messages arrive one after the other.
  unfoldable pub arrive : Endpoint M → List (Packet M) → Option (Endpoint M)
  arrive endpt [] = some endpt
  arrive endpt (msg ∷ msgs) = endpoint_add_message endpt msg >>= λ e. arrive e msgs

  -- `n` times `endpoint_receive`: what was read, in order.
  unfoldable pub receive_all : Endpoint M → ℕ → Endpoint M × List (Packet M)
  receive_all endpt ℕ.zero = (endpt, [])
  receive_all endpt (ℕ.suc n) =
      let (rest, got) = endpoint_receive endpt in
      let (last, more) = receive_all rest n in
      elim got [ none ↦ (endpt, []) | some msg ↦ (last, msg ∷ more) ]

  -- The messages that are for the endpoint itself.
  abbrev pub is_read : Packet M → Bool
  is_read (link e) = false
  is_read (unlink e) = false
  is_read (endpoint_exit e reason) = true
  is_read kill = true
  is_read (user m) = true

  abbrev pub readable : List (Packet M) → List (Packet M)
  readable [] = []
  readable (msg ∷ msgs) = if is_read msg then msg ∷ readable msgs else readable msgs

  -- What messages leave behind at an endpoint that was open.
  pub record Arrived (before : Endpoint M) (msgs : List (Packet M)) (after : Endpoint M)
      : Type 0 where
    pub still_open : after.closed ≡ false
    pub queued : after.mailbox ≡ before.mailbox ++ readable msgs

  add_message-Arrived :
      (endpt endpt' : Endpoint M) (msg : Packet M)
      → endpt.closed ≡ false
      → endpoint_add_message endpt msg ≡ some endpt'
      → Arrived endpt (msg ∷ []) endpt'
  unfolding endpoint_add_message deliver
  add_message-Arrived endpt endpt' (link e) o h = record {
    still_open = ground arith;
    queued = ground (arith, append-nil endpt.mailbox);
  }
  add_message-Arrived endpt endpt' (unlink e) o h = record {
    still_open = ground arith;
    queued = ground (arith, append-nil endpt.mailbox);
  }
  add_message-Arrived endpt endpt' (endpoint_exit e reason) o h = record {
    still_open = ground arith;
    queued = ground arith;
  }
  add_message-Arrived endpt endpt' kill o h = record {
    still_open = ground arith;
    queued = ground arith;
  }
  add_message-Arrived endpt endpt' (user m) o h = record {
    still_open = ground arith;
    queued = ground arith;
  }

  readable-cons :
      (msg : Packet M) (msgs : List (Packet M))
      → readable (msg ∷ msgs) ≡ readable (msg ∷ []) ++ readable msgs
  readable-cons msg msgs = elim (Bool-cases (is_read msg)) [ inl r ↦ rw r refl | inr s ↦ rw s refl ]

  -- The mailbox of an open endpoint takes the messages that are for the endpoint itself, in the
  -- order in which they arrive, behind those that wait.
  pub arrive-Arrived :
      (endpt endpt' : Endpoint M) (msgs : List (Packet M))
      → endpt.closed ≡ false
      → arrive endpt msgs ≡ some endpt'
      → Arrived endpt msgs endpt'
  unfolding arrive
  arrive-Arrived endpt endpt' [] o h = record {
    still_open = ground arith;
    queued = ground (arith, append-nil endpt.mailbox);
  }
  arrive-Arrived endpt endpt' (msg ∷ msgs) o h =
      let (mid, first, later) = >>=-eq-some (endpoint_add_message endpt msg) _ h in
      let a = add_message-Arrived endpt mid msg o first in
      let b = arrive-Arrived mid endpt' msgs a.still_open later in
      record {
        still_open = b.still_open;
        queued =
            b.queued
            ∙ ap (λ l. l ++ readable msgs) a.queued
            ∙ append_assoc endpt.mailbox (readable (msg ∷ [])) (readable msgs)
            ∙ ap (λ l. endpt.mailbox ++ l) (sym (readable-cons msg msgs));
      }

  -- Receiving as often as there are messages reads them all in order.
  receive_all-mailbox :
      (endpt : Endpoint M) (msgs : List (Packet M))
      → endpt.mailbox ≡ msgs
      → (receive_all endpt (length msgs)).1 ≡ msgs
  unfolding receive_all endpoint_receive
  receive_all-mailbox endpt [] e = refl
  receive_all-mailbox endpt (msg ∷ msgs) e =
      let rest = record endpt { mailbox = msgs } in
      rw e (ap (λ l. msg ∷ l) (receive_all-mailbox (record endpt { mailbox = msgs }) msgs refl))

  -- An open endpoint with an empty mailbox reads the messages that are for itself in the order in
  -- which they arrive, and nothing else.
  pub receive_all-arrive :
      (endpt endpt' : Endpoint M) (msgs : List (Packet M))
      → endpt.closed ≡ false
      → endpt.mailbox ≡ []
      → arrive endpt msgs ≡ some endpt'
      → (receive_all endpt' (length (readable msgs))).1 ≡ readable msgs
  receive_all-arrive endpt endpt' msgs o empty h =
      let a = arrive-Arrived endpt endpt' msgs o h in
      receive_all-mailbox endpt' (readable msgs) (a.queued ∙ ap (λ l. l ++ readable msgs) empty)
