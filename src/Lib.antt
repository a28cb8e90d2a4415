-- ===== src/Lib.antt =====
-- Committer, a distributed key-value store with two-phase and three-phase commit. A coordinator
-- receives `Put`, proposes the entry to its followers, asks them to precommit, writes the entry and
-- tells the followers to commit; a monitor records the run as TLA+ states and checks it against the
-- actions of the protocol.
--
-- Where the parts are:
--   Go: panics, and the computations that may end in one.
--   Tla: the values of the monitor (server/TwoPhaseCommitFull.go), their printing (Tla/Print), the
--     operations that the checks use (Tla/Ops), the rest of the library (Tla/Sequences,
--     Tla/Integers, Tla/Sets, Tla/Ranges, Tla/Logic), what `Eq` decides and what the maps do.
--     Sequences are values there; Tla/Shared has `Append` on the arrays that Go's slices share, when
--     the slices behave as values (Shared/Values) and what the sharing hides (Shared/Masks).
--   Monitor: states, events, `CaptureState` and `Reset`; the check of every action
--     (Monitor/Coordinator, Monitor/Participant, Monitor/Network) out of shared clauses
--     (Monitor/Clauses), and `CheckTrace` (Monitor/Trace); traces that it accepts, extended event
--     by event (Monitor/Accepted), and what they log (Monitor/Log); the names of
--     events (Monitor/Names).
--   Refine: server/refine.go, the messages of the protocol as TLA values.
--   Proto: the messages of proto/schema.pb.go. Cache: cache/cache.go. Database: db/.
--   Config: config/config.go and helpers/helpers.go; the addresses that a configuration lists
--     (Config/Addresses) and their text (Config/Lists).
--   Server: a node's state, its flags (Server/Node), its handlers (Server/Handlers, from
--     server/server.go and server/committer.go), the interceptor (Server/Interceptor), and a node
--     under any sequence of calls and timeouts (Server/Events; its height in Server/Heights, what it
--     serves in Server/Integrity). Server/Timing is server/timing.go, and Server/JsonLog the debug
--     log of server/server.go, which nothing calls.
--   Setup: how a node is made, `NewCommitServer` with its options, the hooks of hooks/, the clients
--     of peer/peer.go, the tracer of trace/trace.go and the server of main.go; what zipkin, gRPC and
--     Badger answer is the parameter `World`. Setup/Built has what comes out, Setup/Service joins it
--     to the calls of `Put` that the node then serves, and Setup/Lifetime takes the program
--     from its start to its end, over what becomes of the calls that it serves; Setup/Lifetime/Puts
--     gives that for calls of `Put`.
--   Cluster: a coordinator and its followers. `call` runs a follower's handler under a network that
--     may lose the request, lose the reply or let the context expire (Cluster.antt). `Put` is in
--     Cluster/Put; the turns of its three loops are in Cluster/Stages and its notes to the monitor
--     in Cluster/Notes. Cluster/Phases follows the monitor's events through the notes, and
--     Cluster/Watched carries a predicate on the notes through the loops; Cluster/Safety (two
--     followers) and Cluster/Followers (any number) put them together. Cluster/History runs one
--     `Put` after another. Cluster/Stored has what an acknowledged `Put` makes of every node, and
--     Cluster/Replicas sets the cluster next to one abstract store. Cluster/Overlap lets any calls of
--     `Put` overlap, turn by turn; Overlap/Alone sets a call that runs alone next to `Put`,
--     Overlap/Clean has what every interleaving keeps, Overlap/Lost, Overlap/Forgotten and
--     Overlap/Mixed interleavings that go wrong, and Overlap/Rejected what follows a rejected trace
--     (Monitor/Rejected). The other theorems about `Put` are in Cluster/Agreement, Cluster/Exits,
--     Cluster/CatchUp, Cluster/Behind, Cluster/Lossy, Cluster/Delivery, Cluster/Refusal and
--     Cluster/Unlisted, over the lemmas beside them.
--   Client: the loop of examples/client/client.go over `Put` of peer/peer.go, what its rounds write
--     (Client/Reads), what the cluster then holds (Client/Loads) and what clients then get from it
--     (Client/Gets); Tla/Decimal has the texts of numbers that its keys are made of.
--   Examples: small clusters and the theorems at them.
--
-- How the code is read:
--   A method that changes the server is a function from the old state to the reply and the new
--   state; a reply has both results of the Go function, either of which may be nil. A method runs as
--   a whole; Server/Events puts methods and timeouts in any order. The height is a uint64 and wraps.
--   The database, the hooks and the network are not fixed: a database is a record of operations,
--   with `DatabaseLaws` as what the server relies on, the hooks are fields of a node, and the fates
--   of the calls are a list of any length.
--   Only the retry loop of `Put` and the loop of `RangeIncl` can run for ever; each takes a number of
--   rounds. `Put` ends in `out_of_fuel` when they are used up; theorems about what it returns hold
--   for every number, and one round more than the calls that are lost is enough at followers that
--   consent (Cluster/Lossy). `RangeIncl` needs as many as there are numbers between its bounds (Tla/Ranges).
--   A loop over a Go map, whose order Go leaves open, is a function of the elements in the order of
--   the visit (Tla/Sets).
--   One `Put` runs at a time, except in Cluster/Overlap, where a step is a whole turn: the notes
--   before and after a call of a follower are not divided from it. The coordinator is not one of its
--   own followers.
--
-- Not modelled: the spans of the handlers and log lines; generated code but for the types of the
-- messages; `ShowTrace` and `Event.String`, which print a struct by package fmt's reflection with the
-- file and line of a call; the quotient that `PrintOverhead` prints.
pub mod Prelude
pub mod Go
pub mod Tla
pub mod Monitor
pub mod Refine
pub mod Proto
pub mod Cache
pub mod Database
pub mod Config
pub mod Server
pub mod Setup
pub mod Cluster
pub mod Client
pub mod Examples
