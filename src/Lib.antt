-- ===== src/Lib.antt =====
-- nreduce: a distributed graph reduction engine for a lazy functional language. This library
-- models parts of nreduce/, the C sources of the compiler, the runtime system and the network
-- layer. Paths are from the root of the repository.
--
-- The parts and how they interact. The network layer runs threads that own an endpoint each: an
-- endpoint has a mailbox and links to other endpoints, and sends exit notices along its links
-- when it ends. The Chord service is a ring of such endpoints; a node keeps one link for each
-- other node that its finger table names, looks identifiers up for clients, and is reminded by a
-- stabilizer thread to refresh its table. The compiler turns a source tree into
-- supercombinators: the parser makes names apart from the compiler's own, references are
-- resolved through the hash table of supercombinators and the table of built-in functions, and
-- bound variables are renamed to make them unique. All of them use the helpers of util.c. The
-- runtime system runs a program as several tasks, which send each other objects, by their
-- addresses, in messages over the network layer.
--
-- Base: the names that all modules share. Tests on numbers, lists measured by native numbers,
-- texts as lists of bytes, and `do` blocks over Option, where `none` is a failed assertion, an
-- abort, the exit of the process or an access out of bounds, as each definition says.
--
-- Endpoint (nreduce/network/node.h, node.c): `EndpointId`, `Endpoint`, the links
-- (`endpoint_link`, `endpoint_unlink`, `endpoint_check_links`), what the arrival of a message
-- does (`endpoint_add_message`), `endpoint_receive`, and the notices at the end of
-- `endpoint_thread` (`exit_notices`). A message that is sent is appended to the list `sent`.
-- Children: Links, Mailbox, Exit.
--
-- Chord (nreduce/runtime/chord.h, chord.c, messages.h): Types has the constants and the state,
-- Interval the two range tests, Table the finger table with its links (`set_noderef`,
-- `set_finger`, `closest_preceding_finger`, `check_links`, `chord_clear_tables`), Handlers one
-- function for each message handler, the loop of `chord_thread` as `chord_step` and its
-- beginning as `chord_start`, Stabilizer the thread of that name. The values of `rand` are
-- arguments. Lookup is about requests: Progress about one hop, Route about the way of a request
-- around a ring, Stabilize about the requests that refresh fingers. Links is about the links of
-- a node in the states that `chord_step` reaches. Failover is about the exit of a successor,
-- Join about a new node, with its three messages in Messages, Success about the assertions on
-- the way of a finger into the table. An identifier is a number below 256, and a request is
-- followed for 256 hops, since every hop lowers the distance to its identifier, which is below
-- 256. The fields of `chord` that hold the thread, the delay and the pointer to the process are
-- left out; the sizes of messages are not modelled.
--
-- Compiler (nreduce/compiler): Syntax is the tree of source.h; Names the names that the compiler
-- makes up (`make_varname` of source.c, the names of `next_var`), where a number is printed with
-- fuel for one digit more than its value, which has no more digits than that; Renaming the pass
-- of renaming.c and `real_varname` of debug.c; Scombs the hash table of super.c with `hash` of
-- util.c, where a walk along a chain has fuel for one entry more than there are supercombinators
-- and `add_scomb` as many numbers to try; Builtins the table and the lookup of
-- nreduce/runtime/builtins.c; Resolve the pass of resolve.c; Copying the copies and the marks of
-- appendopt.c; Strictness the analyser of strictness.c, with the loops of check_strictness_r as
-- functions of their own, Lists the sorted lists of names and Analysis the loop over the
-- supercombinators. Nameless has source trees without names (binders counted from the inside),
-- which say what a tree means for Renaming, Resolve and Copying. Room is the limit on the stacks
-- of names and mappings that resolve.c and renaming.c keep, at which the process exits (`push`),
-- and `RoomFor` says that a supercombinator stays within it; Renaming has the pass with that
-- limit, and Plain the same pass without it, to which Returns leads back. The pointers of the C
-- code to supercombinators are indices of the array. The mutation of a tree in place is a
-- function from the old tree to the new one; these passes never reach a node on two ways. The
-- analyser's recursion has fuel for one level for each node of the tree, a letrec one round more
-- than it has bindings, and a program one round more than it has marks and flags to set, since a
-- round that is followed by another sets one.
--
-- Runtime (nreduce/runtime): Wire is the encoding of messages in data.c, with Bytes for integers
-- in memory, Fields for `write_vformat` and the reading of its fields, Reading and Roundtrip for
-- what is read back. An integer has the bytes of a little-endian machine, -1 is the greatest
-- number of its width, and the arguments for heap objects are left out. Inflight is `msg_send`,
-- `msg_fsend` and, of interpreter.c, `finish_address_reading` and `interpreter_ack`: a sender
-- notes the addresses in its messages until the receiver has acknowledged them, so that the
-- garbage collector keeps their objects. `Net` is two tasks with the messages and
-- acknowledgements on their way, in order; Settled and Delivery have what each step keeps,
-- Reached the states that are reached. The events that are logged are left out.
--
-- Util (nreduce/network/util.c): Escape, Words (`parse_cmdline`), Arrays, Lists, Stacks and
-- Times. The doubling of an array has fuel for one round more than the bytes that it must hold,
-- since a room that is not empty grows with every round. The `int` sizes of an array are natural
-- numbers, and a sum or a doubling that reaches 2 ^ 31 has no result; other numbers of type
-- `int` are natural numbers without a bound.
--
-- Not modelled: sockets, threads, locks and the delivery of messages between processes (a
-- message that is sent is recorded, and the order of arrival is an argument); the other passes
-- of the compiler (lambda lifting, sinking, reordering, inlining, bytecode), the machine of the
-- interpreter, the encoding of heap objects, the memory manager and the native code generator;
-- lexer.l and grammar.y; floating point (the bits of a double stand for a number).
mod Base
pub mod Chord
pub mod Compiler
pub mod Endpoint
pub mod Runtime
pub mod Util
