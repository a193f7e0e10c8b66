-- ===== src/Lib.antt =====
-- Verification library of clausa-lens: capture of executions, incidents with their graphs, capsules,
-- replay runs and differential analysis, with the demo system that produces a duplicated effect.
--
-- How the parts interact. Services record events, which the core store keeps; an incident names the
-- events of one execution with a graph that orders them. A capsule freezes an incident for replay. A
-- run replays a capsule: a BASELINE run reproduces the failure, and a WHAT_IF run repeats a completed
-- baseline with one intervention. The worker claims a run in the store, executes it through a runner,
-- has the checkout pack judge the events, and ends the run. The differential analysis compares a
-- what-if run with its baseline.
--
-- Which file models what (paths from the repository's root):
--   Contracts     internal/contracts/contracts.go: the enums, records and validators. Each `Validate`
--                 is a function `validate_*` to `Check`, whose error is the message, with the values
--                 that a message formats left out. CanTransitionReplayRun is `can_transition`.
--   Graph         internal/graph/graph.go: `order`, `build_nodes`, `has_hard_cycle`. Walks, Acyclic,
--                 Cyclic and Search are about the cycle search of contracts.go.
--   Core          internal/core/store.go and the in-memory part of internal/core/lease.go: the store
--                 is a record of association lists, each method a function on it, and Steps.antt the
--                 relation of its successful calls. The mutex makes each call atomic. Repository is the
--                 abstract repository, with functions for the maps and tests of its own, for most
--                 requests; it says nothing of incidents, lists, resets and reclaims.
--   Capture       internal/capture/ids.go, recorder.go and sink.go: the generator of ids, a recorder
--                 with the sequences of its executions, and sinks as functions on a state.
--   Capsule       internal/capsule/capsule.go: `compile` and the digest, over a function that stands
--                 for canonical JSON and SHA-256.
--   Checkout      internal/systempack/checkout: oracle, alignment, comparison, capsule rules, fixtures,
--                 interventions and normalization; Pack.antt is the pack as a value of SystemPack.
--   Packs         internal/packregistry: the registry and the development pack.
--   Differential  internal/differential/differential.go: `build`, over the store and the pack as a
--                 record of functions.
--   Replay        internal/replay/replay.go and executor.go; and of cmd/replay-worker, main.go with
--                 `process_run`, the endings and the recovery of runs, and runner.go with the sink,
--                 the plan's check and the fixtures. Between two calls of `processRun` on the store,
--                 the other processes are any function on it.
--   Api           cmd/core-api/main.go and detect.go: the handlers, with a body that is decoded or
--                 refused, and `detect`, which finds incidents in posted events.
--   Demo          cmd/demo-ledger, cmd/demo-payment and cmd/demo-checkout, package service: the
--                 goroutines of `Process`, and what it takes off their channel, are schedules of actions.
--   Prelude       shared names, lists, integers, maps, sorting and the results of fallible calls.
--   Examples      tests, and each result at concrete data.
--
-- Fuel. The depth-first searches for a cycle recurse on fuel, two more than the number of edges: the
-- ids on the stack differ, and all but the first are targets of edges. Out of fuel, a search answers
-- that there is a cycle. The oracle's evaluation calls itself once through the selection of an
-- operation and is closed at that depth; every other function is structural.
--
-- Parameters. `host_of` is the host that `net/url` reads off a destination. The runner, the digest's
-- check and the pack's check of a capsule are arguments of `execute`. A System Pack is a record of
-- functions. Clocks are arguments: a text for the timestamps of runs, nanoseconds for leases.
--
-- Simplifications. Go's int is an unbounded integer, a float a fraction; time.Parse is read for UTC
-- texts in RFC 3339. A map's iteration order is that of its list. sort.Slice is a stable insertion
-- sort. A cancelled context is a Boolean argument. A page's cursor is read as what its text encodes.
-- A handler of the core API runs without another request between its calls.
--
-- Not modelled: the Postgres repository, HTTP routing and JSON, the sink that posts events,
-- the labels of a pack, the worker's polling loop and the drive of the gateway in its runner, the
-- events that the demo services record, and the web interface: they are I/O, or call code that is not
-- in the repository. A run that `processRun` returns beside an error is left out, as its callers do
-- not read it.
pub mod Prelude
pub mod Contracts
pub mod Graph
pub mod Core
pub mod Capture
pub mod Capsule
pub mod Checkout
pub mod Packs
pub mod Differential
pub mod Replay
pub mod Api
pub mod Demo
pub mod Examples
