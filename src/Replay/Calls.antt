-- ===== src/Replay/Calls.antt =====
-- cmd/replay-worker/main.go: what `processRun` calls and meets. A worker's call of the store is one
-- step; `others` is what the other processes have done to the store by then, and `cancelled` whether
-- the context had been.
use clausa_lens.Prelude.{
  ℕ, String, Bool, ◌&&◌, not, Option, none, some, List, [], ◌∷◌, ◌==◌, string_eq, ℤ, pos, Result,
  ok, err, reject, ◌+++◌, if◌then◌else◌,
}
use clausa_lens.Contracts.RunEnums.{
  RunType, RunStatus, Outcome, run_type_eq, run_status_eq, outcome_eq,
}
use clausa_lens.Contracts.Graph.{ExecutionGraph}
use clausa_lens.Contracts.Capsule.{ReplayCapsule, ReplayPlan, DependencyFixture}
use clausa_lens.Contracts.Pack.{SystemPack}
use clausa_lens.Contracts.Run.{Intervention, ReplayRun}
use clausa_lens.Contracts.RunCheck.{verdict_passes}
use clausa_lens.Core.Store.{Store, StoreError}
use clausa_lens.Replay.Lifecycle.{ReplayError}
use clausa_lens.Replay.Execute.{RunnerConfig, RunResult}

-- The calls of the store, in the order of the code; `persist` is by the event's index.
pub data Call : Type 0 where
  read claim reread baseline advance renew load finish : Call
  persist : ℕ → Call

-- What the worker meets: the clock's readings, in nanoseconds and as texts, and the other processes.
pub record World : Type 0 where
  pub cancelled : Call → Bool
  pub others : Call → Store → Store
  pub at : Call → ℕ
  pub now : Call → String

-- What the process is made with. A nil pack or runner is `none`.
pub record Worker : Type 0 where
  pub pack : Option SystemPack
  pub runner : Option (RunnerConfig → Result String RunResult)
  pub verify_digest : ReplayCapsule → Bool
  pub lease : ℕ

pub data WorkerError : Type 0 where
  worker_error : String → WorkerError
  store_error : StoreError → WorkerError
  lifecycle_error : ReplayError → WorkerError

-- The store as the call leaves it, and the run that it returns or its error.
abbrev pub Processed : Type 0
Processed = Store × Result WorkerError ReplayRun

-- The end by a function of the package, which leaves the store as it is where it fails.
abbrev pub settled : Store → Result ReplayError (Store × ReplayRun) → Processed
settled s (ok (t, r)) = (t, ok r)
settled s (err e) = (s, err (lifecycle_error e))

abbrev pub completed : Store → Result ReplayError (Store × ReplayRun) → Processed
completed s (ok (t, r)) = (t, ok r)
completed s (err e) = (s, err (worker_error "replay worker: finalize run"))

unfoldable pub eligible : ReplayRun → ReplayRun → Bool
eligible run b =
    b.run_type == RunType.baseline
    && b.status == RunStatus.completed
    && b.outcome == Outcome.reproduced
    && verdict_passes b.isolation_evidence
    && b.capsule_hash == run.capsule_hash

-- `authorizeBaseline`, given the answer of `GetRun`.
unfoldable pub authorize_baseline :
    ReplayRun → Result StoreError ReplayRun → Result String (Unit {0})
unfolding eligible
authorize_baseline run (err e) = err ("baseline " +++ run.baseline_run_id +++ " not found")
authorize_baseline run (ok b) = reject (not (eligible run b)) (
    "baseline " +++ run.baseline_run_id
    +++ " is not an eligible COMPLETED/REPRODUCED baseline with passing isolation")

unfoldable pub fixture_latency : List DependencyFixture → ℤ
fixture_latency [] = pos 0
fixture_latency (f ∷ fs) = f.latency_ms

-- The zero `ExecutionGraph`.
abbrev pub zero_graph : ExecutionGraph
zero_graph = record {
  schema_version = "";
  graph_id = "";
  incident_id = "";
  ordering_policy_version = "";
  nodes = [];
  edges = [];
}

-- The plan and the latency of the run.
abbrev pub intervened :
    SystemPack → ReplayPlan → ℤ → RunType → Option Intervention → Result String (ReplayPlan × ℤ)
intervened pack plan latency run_type none = ok (plan, latency)
intervened pack plan latency run_type (some i) =
    if run_type == RunType.what_if
    then elim (pack.apply_intervention plan i) [ ok p ↦ ok (p, i.to) | err e ↦ err e ]
    else ok (plan, latency)
