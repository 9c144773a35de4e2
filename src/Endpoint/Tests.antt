-- ===== src/Endpoint/Tests.antt =====
-- Two endpoints of one node, the second of which watches the first.
use nreduce.Base.{ℕ, false, List, [], ◌∷◌, ◌≡◌, refl, Option, some, none, length}
use mathlib.Core.List.{Mem}
use nreduce.Endpoint.{
  EndpointId, endpointid_equals, Packet, link, unlink, endpoint_exit, kill, user, Endpoint,
  endpoint_add_message, deliver, exit_notices, endpoint_list_remove,
}
use nreduce.Endpoint.Mailbox.{arrive, receive_all, readable, receive_all-arrive}
use nreduce.Endpoint.Exit.{linked-told}

abbrev watched : Endpoint ℕ
watched = record {
  epid = record { ip = 1; port = 2; localid = 5 };
  inlinks = [];
  outlinks = [];
  mailbox = [];
  closed = false;
  sent = [];
}

abbrev watcher : EndpointId
watcher = record { ip = 1; port = 2; localid = 6 }

abbrev other : EndpointId
other = record { ip = 1; port = 3; localid = 6 }

abbrev traffic : List (Packet ℕ)
traffic = user 10 ∷ link other ∷ user 20 ∷ unlink other ∷ kill ∷ []

abbrev or_watched : Option (Endpoint ℕ) → Endpoint ℕ
or_watched none = watched
or_watched (some e) = e

after : Endpoint ℕ
unfolding arrive endpoint_add_message deliver endpoint_list_remove endpointid_equals
after = or_watched (arrive watched (link watcher ∷ traffic))

arrive-after : arrive watched (link watcher ∷ traffic) ≡ some after
unfolding after
arrive-after = refl

linked-told_example :
    Mem (watcher, endpoint_exit watched.epid 1) (exit_notices after after.inlinks).sent
unfolding endpointid_equals
linked-told_example =
    linked-told watched after watcher traffic refl (refl, (refl, (refl, (refl, (refl, tt)))))
      arrive-after

receive_all-arrive_example :
    (receive_all after (length (readable (link watcher ∷ traffic)))).1
    ≡ readable (link watcher ∷ traffic)
receive_all-arrive_example =
    receive_all-arrive watched after (link watcher ∷ traffic) refl refl arrive-after

readable_run : readable (link watcher ∷ traffic) ≡ user 10 ∷ user 20 ∷ kill ∷ []
readable_run = refl
