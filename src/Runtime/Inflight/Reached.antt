-- ===== src/Runtime/Inflight/Reached.antt =====
-- The states that two tasks reach by messages with addresses and acknowledgements.
use nreduce.Base.{
  ℕ, ◌≡◌, refl, sym, ap, subst, ◌∙◌, List, [], ◌∷◌, ◌++◌, length, none, some, arith, inl, inr,
}
use nreduce.Runtime.Wire.{Gaddr}
use nreduce.Runtime.Wire.Fields.{Arg}
use nreduce.Runtime.Inflight.{
  Msg, total, Net, net_send, receive_next, net_receive, ack_next, net_ack,
}
use nreduce.Runtime.Inflight.Settled.{
  counts, pending, IsSendable, AreReadable, AreAcks, Settled, net_send-Settled,
}
use nreduce.Base.{List-cases}
use nreduce.Runtime.Inflight.Delivery.{net_receive-Settled, net_ack-Settled}

-- The states that two tasks reach from one with nothing on its way, by messages that may be sent
-- (`IsSendable`).
pub data Reach (from to : ℕ) : Net → Type 0 where
  start :
      (net : Net)
      → net.sender.inflight ≡ []
      → net.receiver.inflight ≡ []
      → net.receiver.naddrsread ≡ 0
      → net.messages ≡ []
      → net.acks ≡ []
      → net.sender.unack_msg_acount to ≡ []
      → net.sender.inflight_addrs to ≡ []
      → Reach from to net
  sends :
      (net net' : Net) (tag : ℕ) (args : List Arg)
      → Reach from to net
      → IsSendable tag args
      → net_send to net tag args ≡ some net'
      → Reach from to net'
  receives :
      (net net' : Net) → Reach from to net → net_receive from net ≡ some net' → Reach from to net'
  takes_ack : (net net' : Net) → Reach from to net → net_ack to net ≡ some net' → Reach from to net'

nothing_to_receive : (from : ℕ) (net : Net) → net.messages ≡ [] → net_receive from net ≡ none
unfolding receive_next
nothing_to_receive from net e =
    subst (λ (l : List (List Arg × Msg)). receive_next from net l ≡ none) (sym e) refl

nothing_to_take : (to : ℕ) (net : Net) → net.acks ≡ [] → net_ack to net ≡ none
unfolding ack_next
nothing_to_take to net e = subst (λ (l : List Msg). ack_next to net l ≡ none) (sym e) refl

pub Reach-Settled : (from to : ℕ) (net : Net) → Reach from to net → Settled to net
Reach-Settled from to n (start net a b c d e f g) = record {
  sender_idle = a;
  receiver_idle = b;
  receiver_read = c;
  readable = subst AreReadable (sym d) tt;
  kept = [];
  waiting = [];
  acks = subst (λ (l : List Msg). AreAcks l []) (sym e) tt;
  size = refl;
  unacknowledged = f ∙ unfold counts in ap counts (sym d);
  addrs = g ∙ ap pending (sym d);
}
Reach-Settled from to n' (sends net net' tag args r ok h) =
    let (n, e, s) = net_send-Settled to net tag args (Reach-Settled from to net r) ok in
    subst (Settled to) {x = n} {y = net'} (cc) s
Reach-Settled from to n' (receives net net' r h) = elim (List-cases net.messages) [
  | inl none_left ↦ cc (nothing_to_receive from net none_left)
  | inr ((args, msg), rest, e) ↦
      let (n, e1, s, left) =
        net_receive-Settled from to net args msg rest (Reach-Settled from to net r) e in
      subst (Settled to) {x = n} {y = net'} (cc) s
]
Reach-Settled from to n' (takes_ack net net' r h) = elim (List-cases net.acks) [
  | inl none_left ↦ cc (nothing_to_take to net none_left)
  | inr (msg, rest, e) ↦
      let (n, e1, s, left, others) =
        net_ack-Settled to net msg rest (Reach-Settled from to net r) e in
      subst (Settled to) {x = n} {y = net'} (cc) s
]

-- In every state that two tasks reach by messages that may be sent, the sender has noted the
-- addresses in all messages on their way, behind others, and each acknowledgement on its way
-- passes the assertions of `interpreter_ack`.
pub Reach-noted :
    (from to : ℕ) (net : Net)
    → Reach from to net
    → ((kept : List Gaddr) × (net.sender.inflight_addrs to ≡ kept ++ pending net.messages))
      × ((msg : Msg) (rest : List Msg)
          → net.acks ≡ msg ∷ rest
          → (net' : Net) × (net_ack to net ≡ some net') × (net'.acks ≡ rest))
Reach-noted from to net r =
    let s = Reach-Settled from to net r in
    (
      (s.kept, s.addrs),
      λ msg rest e.
          let (n, e1, s1, left, others) = net_ack-Settled to net msg rest s e in (n, e1, left),
    )

-- The delivery of messages and acknowledgements.
pub data Delivers (from to : ℕ) : Net → Net → Type 0 where
  delivered : (net : Net) → Delivers from to net net
  message :
      (net net1 net2 : Net)
      → net_receive from net ≡ some net1
      → Delivers from to net1 net2
      → Delivers from to net net2
  acknowledgement :
      (net net1 net2 : Net)
      → net_ack to net ≡ some net1
      → Delivers from to net1 net2
      → Delivers from to net net2

abbrev pub Quiet : ℕ → Net → Type 0
Quiet to net =
    (net.messages ≡ [])
    × (net.acks ≡ [])
    × (net.sender.inflight_addrs to ≡ [])
    × (net.sender.unack_msg_acount to ≡ [])

no_acks : (ks : List ℕ) → AreAcks [] ks → ks ≡ []
no_acks [] a = refl
no_acks (k ∷ ks) a = absurd a

length_zero : (l : List Gaddr) → length l ≡ 0 → l ≡ []
length_zero [] h = refl
length_zero (a ∷ l) h = absurd (omega arith)

Settled-Quiet :
    (to : ℕ) (net : Net) → Settled to net → net.messages ≡ [] → net.acks ≡ [] → Quiet to net
unfolding counts
Settled-Quiet to net s m a =
    let waiting : s.waiting ≡ [] =
      no_acks s.waiting (subst (λ (l : List Msg). AreAcks l s.waiting) a s.acks) in
    let kept : s.kept ≡ [] = length_zero s.kept (s.size ∙ ap total waiting) in
    (
      m,
      a,
      s.addrs ∙ ap (λ (l : List Gaddr). l ++ pending net.messages) kept ∙ ap pending m,
      s.unacknowledged ∙ ap (λ (l : List ℕ). l ++ counts net.messages) waiting ∙ ap counts m,
    )

drain_acks :
    (from to : ℕ) (acks : List Msg) (net : Net)
    → Settled to net
    → net.messages ≡ []
    → net.acks ≡ acks
    → (net' : Net) × Delivers from to net net' × Quiet to net'
drain_acks from to [] net s m a =
    let quiet = Settled-Quiet to net s m a in (net, delivered net, quiet)
drain_acks from to (msg ∷ acks) net s m a =
    let (n, e, s1, left, others) = net_ack-Settled to net msg acks s a in
    let (net', d, q) = drain_acks from to acks n s1 (others ∙ m) left in
    (net', acknowledgement net n net' e d, q)

drain :
    (from to : ℕ) (ms : List (List Arg × Msg)) (net : Net)
    → Settled to net
    → net.messages ≡ ms
    → (net' : Net) × Delivers from to net net' × Quiet to net'
drain from to [] net s m = drain_acks from to net.acks net s m refl
drain from to ((args, msg) ∷ ms) net s m =
    let (n, e, s1, left) = net_receive-Settled from to net args msg ms s m in
    let (net', d, q) = drain from to ms n s1 left in (net', message net n net' e d, q)

-- From every state that two tasks reach by messages that may be sent, the messages and
-- acknowledgements on their way can be delivered without a failed assertion, until nothing is on
-- its way and the sender has no address noted any more.
pub Reach-drains :
    (from to : ℕ) (net : Net)
    → Reach from to net
    → (net' : Net) × Delivers from to net net' × Quiet to net'
Reach-drains from to net r = drain from to net.messages net (Reach-Settled from to net r) refl
