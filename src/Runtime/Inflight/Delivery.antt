-- ===== src/Runtime/Inflight/Delivery.antt =====
-- The delivery of messages with addresses and of their acknowledgements.
use nreduce.Base.{
  ℕ, zero, suc, ◌+◌, ◌^◌, ◌≤◌, ◌<◌, true, ◌&&◌, ◌≡◌, refl, sym, ap, subst, ◌∙◌, List, [], ◌∷◌, ◌++◌,
  length, take, drop, get_elem?, Option, none, some, ◌==◌, ltb, leb, arith, ◌⊎◌, inl, inr,
  length-append, length-drop, ==-refl,
}
use mathlib.Core.List.{append_assoc}
use nreduce.Runtime.Wire.{Gaddr}
use nreduce.Runtime.Wire.Fields.{Arg, addresses}
use nreduce.Runtime.Inflight.{
  Msg, Task, set_at, start_address_reading, total, interpreter_ack, Net, add_ack, receive,
  receive_next, net_receive, ack_next, net_ack,
}
use nreduce.Runtime.Inflight.Settled.{
  IsReadable, IsAck, carried, count_of, counts, pending, IsSendable, AreReadable, AreAcks, Settled,
  AreAcks-append, finish-settles, length-noted,
}

total-append : (ks : List ℕ) (k : ℕ) → total (ks ++ k ∷ []) ≡ total ks + k
total-append [] k = omega arith
total-append (j ∷ ks) k = omega (arith, total-append ks k)

count_of-none : (l : List Gaddr) → length l ≡ 0 → (count_of l ≡ []) × (l ≡ [])
count_of-none [] h = (refl, refl)
count_of-none (a ∷ l) h = absurd (omega arith)

count_of-some : (l : List Gaddr) (k : ℕ) → length l ≡ k → 0 < k → count_of l ≡ k ∷ []
count_of-some [] k h p = absurd (omega arith)
count_of-some (a ∷ l) k h p = ap (λ (n : ℕ). n ∷ []) h

-- What the receiver does with a message.
receive-settles :
    (from : ℕ) (tsk : Task) (args : List Arg) (msg : Msg)
    → tsk.inflight ≡ []
    → tsk.naddrsread ≡ 0
    → IsReadable args msg
    → IsSendable msg.tag args
    → (tsk' : Task) × (ack : Option Msg) × (receive from tsk args msg ≡ some (tsk', ack))
      × (tsk'.inflight ≡ [])
      × (tsk'.naddrsread ≡ 0)
      × (((length (carried args) ≡ 0) × (ack ≡ none))
          ⊎ ((0 < length (carried args))
              × ((m : Msg) × (ack ≡ some m) × IsAck m (length (carried args)))))
unfolding receive start_address_reading
receive-settles from tsk args msg idle unread r (fits, small, few, short) =
    let (rd, e, ended, counted) = r tsk.naddrsread in
    let k : rd.naddrsread ≡ length (carried args) =
      omega (arith, counted, unread, length-noted (addresses args) []) in
    let (tsk', ack, e1, idle1, unread1, cases) =
      finish-settles (record tsk { naddrsread = rd.naddrsread }) from msg.tag
        (length (carried args)) idle k (omega (arith, length-noted (addresses args) [])) small in
    let zero_read : 0 == tsk.naddrsread ≡ true = ==-refl 0 tsk.naddrsread (sym unread) in
    (tsk', ack, rw (zero_read, e, ended) e1, idle1, unread1, cases)

-- The next message is read to its end, and acknowledged exactly if it carries an address.
pub net_receive-Settled :
    (from to : ℕ) (net : Net) (args : List Arg) (msg : Msg) (rest : List (List Arg × Msg))
    → Settled to net
    → net.messages ≡ (args, msg) ∷ rest
    → (net' : Net) × (net_receive from net ≡ some net') × Settled to net' × (net'.messages ≡ rest)
unfolding receive_next
net_receive-Settled from to net args msg rest s e =
    let readable : AreReadable ((args, msg) ∷ rest) = subst AreReadable e s.readable in
    let (tsk', ack, e1, idle, unread, cases) =
      receive-settles from net.receiver args msg s.receiver_idle s.receiver_read readable.0.0
        readable.0.1 in
    let unack : net.sender.unack_msg_acount to
        ≡ s.waiting ++ (count_of (carried args) ++ counts rest) =
      unfold counts in
      s.unacknowledged ∙ ap (λ (l : List (List Arg × Msg)). s.waiting ++ counts l) e in
    let addrs : net.sender.inflight_addrs to ≡ s.kept ++ (carried args ++ pending rest) =
      s.addrs ∙ ap (λ (l : List (List Arg × Msg)). s.kept ++ pending l) e in
    let result : net_receive from net
        ≡ some (record net { receiver = tsk'; messages = rest; acks = add_ack net.acks ack }) =
      subst
        (λ (l : List (List Arg × Msg)).
          receive_next from net l
          ≡ some (record net { receiver = tsk'; messages = rest; acks = add_ack net.acks ack }))
        (sym e) (rw e1 refl) in
    (
      record net { receiver = tsk'; messages = rest; acks = add_ack net.acks ack },
      result,
      elim cases [
        | inl (none_read, noack) ↦
            let (c, l) = count_of-none (carried args) none_read in
            record {
              sender_idle = s.sender_idle;
              receiver_idle = idle;
              receiver_read = unread;
              readable = readable.1;
              kept = s.kept;
              waiting = s.waiting;
              acks =
                  subst (λ (o : Option Msg). AreAcks (add_ack net.acks o) s.waiting) (sym noack)
                    s.acks;
              size = s.size;
              unacknowledged = unack ∙ ap (λ (m : List ℕ). s.waiting ++ (m ++ counts rest)) c;
              addrs = addrs ∙ ap (λ (m : List Gaddr). s.kept ++ (m ++ pending rest)) l;
            }
        | inr (some_read, (m, isack, good)) ↦
            let k = length (carried args) in
            record {
              sender_idle = s.sender_idle;
              receiver_idle = idle;
              receiver_read = unread;
              readable = readable.1;
              kept = s.kept ++ carried args;
              waiting = s.waiting ++ k ∷ [];
              acks =
                  subst (λ (o : Option Msg). AreAcks (add_ack net.acks o) (s.waiting ++ k ∷ []))
                    (sym isack)
                    (AreAcks-append net.acks s.waiting m k s.acks good some_read
                      (omega (arith, length-noted (addresses args) [], readable.0.1.2)));
              size =
                  omega
                    (arith, length-append s.kept (carried args), s.size, total-append s.waiting k);
              unacknowledged =
                  unack
                  ∙ ap (λ (m : List ℕ). s.waiting ++ (m ++ counts rest))
                      (count_of-some (carried args) k refl some_read)
                  ∙ sym (append_assoc s.waiting (k ∷ []) (counts rest));
              addrs = addrs ∙ sym (append_assoc s.kept (carried args) (pending rest));
            }
      ],
      refl,
    )

drop-kept : (n : ℕ) (a b : List Gaddr) → n ≤ length a → drop n (a ++ b) ≡ drop n a ++ b
drop-kept zero a b h = refl
drop-kept (suc n) [] b h = absurd (omega arith)
drop-kept (suc n) (x ∷ a) b h = drop-kept n a b (omega arith)

-- What the sender does with an acknowledgement of the first message that it waits for.
interpreter_ack-settles :
    (tsk : Task) (to k : ℕ) (msg : Msg) (counts1 : List ℕ) (kept later : List Gaddr)
    → IsAck msg k
    → 0 < k
    → k < 2 ^ 31
    → tsk.unack_msg_acount to ≡ k ∷ counts1
    → tsk.inflight_addrs to ≡ kept ++ later
    → k ≤ length kept
    → (tsk' : Task) × (interpreter_ack tsk to msg ≡ some tsk')
      × (tsk'.inflight ≡ tsk.inflight)
      × (tsk'.unack_msg_acount to ≡ counts1)
      × (tsk'.inflight_addrs to ≡ drop k kept ++ later)
unfolding interpreter_ack
interpreter_ack-settles tsk to k msg counts1 kept later good p b e f l =
    let (rd1, rd2, t, rd3, e1, e2, e3) = good tsk.naddrsread in
    let positive : ltb 0 k && ltb k (2 ^ 31) ≡ true = ground arith in
    let there : leb 1 (length (tsk.unack_msg_acount to)) ≡ true = ground (arith, ap length e) in
    let first : get_elem? (tsk.unack_msg_acount to) 0 ≡ some k =
      ap (λ (m : List ℕ). get_elem? m 0) e in
    let sum : total (take 1 (tsk.unack_msg_acount to)) ≡ k =
      ap (λ (m : List ℕ). total (take 1 m)) e ∙ omega arith in
    let room : leb (total (take 1 (tsk.unack_msg_acount to))) (length (tsk.inflight_addrs to))
        ≡ true =
      ground (arith, sum, ap length f, length-append kept later) in
    (
      record tsk {
        unack_msg_acount = set_at tsk.unack_msg_acount to (drop 1 (tsk.unack_msg_acount to));
        inflight_addrs =
            set_at tsk.inflight_addrs to
              (drop (total (take 1 (tsk.unack_msg_acount to))) (tsk.inflight_addrs to));
      },
      rw (e1, e2, e3, positive, there, first, ==-refl k k refl, room) refl,
      refl,
      rw (==-refl to to refl) (ap (drop 1) e),
      rw (==-refl to to refl) (
          ap (λ (n : ℕ). drop n (tsk.inflight_addrs to)) sum
          ∙ ap (drop k) f
          ∙ drop-kept k kept later l),
    )

waits_for :
    (msg : Msg) (rest : List Msg) (ks : List ℕ)
    → AreAcks (msg ∷ rest) ks
    → (k : ℕ) × (later : List ℕ) × (ks ≡ k ∷ later)
      × (IsAck msg k × (0 < k) × (k < 2 ^ 31))
      × AreAcks rest later
waits_for msg rest [] a = absurd a
waits_for msg rest (k ∷ ks) a = (k, ks, refl, a.0, a.1)

-- The next acknowledgement passes every assertion of `interpreter_ack`.
pub net_ack-Settled :
    (to : ℕ) (net : Net) (msg : Msg) (rest : List Msg)
    → Settled to net
    → net.acks ≡ msg ∷ rest
    → (net' : Net) × (net_ack to net ≡ some net')
      × Settled to net'
      × (net'.acks ≡ rest)
      × (net'.messages ≡ net.messages)
unfolding ack_next
net_ack-Settled to net msg rest s e =
    let acks : AreAcks (msg ∷ rest) s.waiting =
      subst (λ (l : List Msg). AreAcks l s.waiting) e s.acks in
    let (k, ks, w, good, others) = waits_for msg rest s.waiting acks in
    let size : length s.kept ≡ k + total ks = s.size ∙ ap total w in
    let (tsk', e1, idle, unack, addrs) =
      interpreter_ack-settles net.sender to k msg (ks ++ counts net.messages) s.kept
        (pending net.messages) good.0 good.1 good.2
        (s.unacknowledged ∙ ap (λ (l : List ℕ). l ++ counts net.messages) w) s.addrs
        (omega (arith, size)) in
    let result : net_ack to net ≡ some (record net { sender = tsk'; acks = rest }) =
      subst (λ (l : List Msg). ack_next to net l ≡ some (record net { sender = tsk'; acks = rest }))
        (sym e) (rw e1 refl) in
    (
      record net { sender = tsk'; acks = rest },
      result,
      record {
        sender_idle = idle ∙ s.sender_idle;
        receiver_idle = s.receiver_idle;
        receiver_read = s.receiver_read;
        readable = s.readable;
        kept = drop k s.kept;
        waiting = ks;
        acks = others;
        size = omega (arith, size, length-drop k s.kept (omega (arith, size)));
        unacknowledged = unack;
        addrs = addrs;
      },
      refl,
      refl,
    )
