-- ===== src/Lib.antt =====
-- Verification of distributed-leader-election: the distributed leader election of include/ghs, by
-- minimum spanning trees (GHS), and its message queue of include/seque.
--
-- The program. A user gives each agent a `GhsState`, a queue for outgoing messages, and the
-- transport. `start_round` and `process` (include/ghs/ghs_impl.hpp) change the object, push messages
-- to the queue (include/seque/static_queue_impl.hpp), and report a code (include/le/errno.h) and the
-- number of new messages. Agents search for the cheapest edge that leaves their partition (SRCH,
-- SRCH_RET, IN_PART, ACK_PART, NACK_PART), then join across it (JOIN_US), until none is left (NOOP).
--
-- The files.
-- - Prelude and its children: Boolean tests, lists with native indices, `int`, `unsigned int`.
-- - Errno: include/le/errno.h. Edge: include/ghs/edge.h, agent.h, level.h, src/lib/edge.cpp,
--   src/lib/agent.cpp. Msg: include/ghs/msg.h, src/lib/msg.cpp.
-- - Seque: `StaticQueue`, its operations under their own names (`pop_item` is `pop(T&)`). Seque/Fifo
--   is the bounded list that a client may think of; Seque/Inv the invariant, Seque/Window the items
--   in a circular buffer, Seque/Refine single calls and Seque/Run histories of calls.
-- - Ghs/State: the fields of `GhsState`, and the state of a call: the object, the caller's queue and
--   the `size_t&`. A handler is a function from that state to its code and the new state. What it
--   changed before an error stays changed.
-- - Ghs/Peers: constructor, `reset`, accessors, setters. Ghs/Casts: `typecast`, `mst_broadcast`,
--   `mst_convergecast`. Ghs/Search: `start_round`, `process_srch`, `process_in_part`,
--   `check_new_level`. Ghs/Join: `process_join_us`. Ghs/Process: `process`, `process_srch_ret`,
--   `process_ack_part`, `process_nack_part`, `check_search_status`, `process_noop`. Long functions
--   are cut at their comments, each piece a definition that the function calls in the same order.
-- - Ghs/Accessors: the accessors of single members. Ghs/Lookup: what `checked_index_of` finds.
--   Ghs/WellFormed: the invariant of the object, and that the constructor establishes it.
--   Ghs/Parents: `set_parent_id` and `get_parent_id`. Ghs/Answers: the answers to a search,
--   Ghs/Answering: one after the other.
--   Ghs/Guards: what `process` rejects. Ghs/Part: IN_PART.
--   Ghs/Merge: JOIN_US between the two ends of an edge.
-- - Ghs/Asking: what `process_srch` sends, and for whom it waits then. Ghs/Invariant: predicates of
--   the object that every handler keeps; Ghs/OneParent is one, the edges marked as the parent's.
--   Ghs/Conclude: how a search ends, Ghs/LastAnswer: that the last SRCH_RET ends it.
--   Ghs/Added: which edges the constructor adds. Ghs/CatchUp: `check_new_level`. Ghs/Absorb: JOIN_US
--   over an edge that neither end has in its tree yet.
-- - Ghs/Reach: what the program around an agent may do, as a step relation, and the contexts that it
--   can reach.
-- - Ghs/Network: many agents and the messages in flight between them, as a step relation: a network
--   may deliver, lose, repeat and overtake; Ghs/Network/Laws is about all of its
--   runs, Ghs/Network/Meaning about a message by its payload.
--   Ghs/Network/Duel: two agents that hand over their messages in turns, with the object of an agent
--   with one peer in Duel/Object, each call in Duel/Calls and Merged,
--   and the whole run in Duel/Elects.
-- - Printer: src/libtest/msg_printer.cpp and include/ghs/ghs_printer_impl.hpp.
-- - Tools: src/tools. Tools/MiddleLeader is middle-leader.cpp; its children Ends and Inside are about
--   the work that is left and the subscripts of its vector. Tools/RandomGraph is random-graph.cpp.
-- - Errno/Describe: `strerror` of src/lib/errno.cpp.
-- - Demo/Metric: src/demo/ghs-demo-edgemetrics.cpp. Demo/Config: src/demo/ghs-demo-config.h and the
--   callback and the check of src/demo/ghs-demo-inireader.cpp; Demo/Config/Bounds is about both.
--   Demo/Cli: the callback of src/demo/ghs-demo-clireader.cpp. Demo/Bytes:
--   src/demo/ghs-demo-msgutils.cpp and ghs-demo-msgutils-z.cpp.
-- - Demo/Wire: the messages of src/demo/ghs-demo-comms.h. Demo/Comms: the class `Comms`, with the
--   operations of src/demo/ghs-demo-comms.cpp in Demo/Comms/Setup, Receive, Send and Measure;
--   Demo/Comms/Sequence and Fresh are about the receiver, Lost about a lost confirmation, Agree about
--   the exchange of metrics.
-- - Demo/Exec: `initialize_ghs` of src/demo/ghs-demo.h; Demo/Exec/Outgoing and Main: the loops of
--   `do_main`. Demo/Exec/Build is about `initialize_ghs`, Delivery and Retry about the outgoing
--   messages.
-- - Ghs/Frame, Ghs/Contract, Ghs/Rules: what every handler keeps and sends, and a rule for each
--   construct that the handlers are made of. Ghs/Handlers applies them to the handlers; Ghs/Promise
--   draws the conclusions for `process` and `start_round`.
-- - The modules Tests, JoinTests, SearchTests, AnswerTests, NetworkTests and CommsTests hold concrete
--   runs.
--
-- Bounds and fuel. Every loop of the source runs over an array or a queue of known size and is a
-- structural recursion here, but for two that run on fuel: the loop over the outgoing messages in
-- `do_main`, with as much as there are messages when it starts, which is enough since a round that
-- goes on takes one away; and the loop of middle-leader.cpp, for which the waiting messages and twice
-- the nodes not heard from are enough, since a node that sends is not waited for any more. Indices of
-- the queue are `unsigned int` with 32 bits and wrap around; the invariant asks for 2 * N <= 2 ^ 32,
-- with which no sum of indices wraps. `int` is a signed integer, and `my_level++` goes round at 2 ^ 31 - 1. Sums of `size_t` are plain
-- numbers: they count at most a few messages for each peer.
--
-- Choices. An array is a list with as many cells as the template says. The union `Data` is its
-- active member; a payload read under another type, which C++ leaves undefined, is a
-- value-initialised payload. `ghs_fatal` is that of a release build: it prints, and the code is
-- returned. A read past an array yields no item: in `cfg_is_ok` and in the functions of Demo/Bytes
-- there is no result then, and the loop of middle-leader.cpp ends in an outcome of its own. The demo's
-- `assert` stops the program. Its floats are parameters: the division of doubles in `sym_metric`, the
-- sum in `little_iperf`, and `strtof`. So are the nng library, by what its calls return, the memory of a variable without an initialiser,
-- and the memory of a `Msg`, which `to_bytes` and `from_bytes` copy; the miniz library; argp, `atoi`
-- and `atof`; `rand`; the class `Comms` of middle-leader.cpp, whose header is not in the repository;
-- and how a stream prints a number. The thread that reads the network
-- acts between the rounds of the main loop. A `Kbps` has its lowest byte first.
--
-- Not modelled: include/graph/local_graph.h (declarations only); the rest of the demo (clocks, signals
-- and the test of the links; the ini parser and argp are other libraries); src/tools/to-dot.cpp, which
-- prints nodes in the order of a hash table.
pub mod Prelude
pub mod Errno
pub mod Seque
pub mod Edge
pub mod Msg
pub mod Ghs
pub mod Printer
pub mod Tools
pub mod Demo
