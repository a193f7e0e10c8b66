-- ===== src/Replay/Execute.antt =====
-- internal/replay/executor.go: `Execute` and its safety boundary. The runner, the pack's check of the
-- capsule and the digest's check are arguments, as they are interfaces of the source.
use clausa_lens.Prelude.{
  String, Bool, false, ◌&&◌, ◌||◌, not, Option, none, some, List, [], ◌∷◌, any, all, is_nil,
  is_some, ◌==◌, ◌!=◌, string_eq, int_eq, ℤ, ◌<ℤ◌, Result, ok, err, reject, ◌>>◌, ◌>>=◌, or_fail,
  ◌+++◌,
}
use clausa_lens.Contracts.RunEnums.{RunType, run_type_eq}
use clausa_lens.Contracts.IncidentEnums.{ErrorCode}
use clausa_lens.Contracts.Incident.{ValidationIssue}
use clausa_lens.Contracts.Event.{ExecutionEvent}
use clausa_lens.Contracts.Isolation.{IsolationEvidence, credential_replay_only}
use clausa_lens.Contracts.Capsule.{DependencyFixture, InterventionSpec, ReplayCapsule, ReplayPlan}
use clausa_lens.Contracts.RunEnums.{RunStatus}
use clausa_lens.Contracts.Run.{Intervention, ReplayRun}
use clausa_lens.Contracts.Pack.{FixtureSet}
use clausa_lens.Replay.Isolation.{validate_isolation}

-- The wrapped error values of the package; `execute_failed` is any other error.
pub data ExecuteError : Type 0 where
  invalid_digest pack_validation unsafe_replay invalid_intervention : ExecuteError
  missing_run_id teardown_failed no_replay_events execute_failed : ExecuteError

-- The loop over the specs returns at its first one.
unfoldable pub allowed_intervention : List InterventionSpec → Intervention → Bool
allowed_intervention [] i = false
allowed_intervention (spec ∷ specs) i = not (
    spec.kind != i.kind
    || spec.unit != i.unit
    || i.from <ℤ spec.minimum
    || spec.maximum <ℤ i.to
    || i.from == i.to)

abbrev pub allowed_components : List String
allowed_components =
    "gateway" ∷ "checkout" ∷ "payment" ∷ "ledger" ∷ "payment_simulator" ∷ "payment-simulator"
    ∷ "replay-postgres" ∷ []

unfoldable pub replay_only_plan : ReplayPlan → FixtureSet → Bool
replay_only_plan plan fixtures =
    all (λ c. any (λ a. c == a) allowed_components) plan.required_components
    && all (λ (f : DependencyFixture). f.dependency == "payment_simulator")
        fixtures.dependency_fixtures

abbrev refused_intervention : List InterventionSpec → Option Intervention → Bool
refused_intervention specs none = false
refused_intervention specs (some i) = not (allowed_intervention specs i)

unfoldable pub validate_replay_safety :
    ReplayCapsule → ReplayRun → ReplayPlan → FixtureSet → Result ExecuteError (Unit {0})
validate_replay_safety capsule run plan fixtures = do
  reject (run.run_type == RunType.baseline && is_some run.intervention) invalid_intervention
  reject (run.run_type == RunType.what_if && not (is_some run.intervention)) invalid_intervention
  reject (refused_intervention capsule.allowed_interventions run.intervention) invalid_intervention
  reject (run.baseline_run_id == "" && run.run_type == RunType.what_if) invalid_intervention
  reject (capsule.safety.credential_profile != credential_replay_only) unsafe_replay
  reject (not (replay_only_plan plan fixtures)) unsafe_replay

pub record RunnerConfig : Type 0 where
  pub run_id : String
  pub namespace : String
  pub plan : ReplayPlan
  pub fixtures : FixtureSet
  pub latency_ms : ℤ

pub record RunResult : Type 0 where
  pub events : List ExecutionEvent
  pub isolation : IsolationEvidence
  -- Whether the teardown failed.
  pub teardown : Bool

pub record ExecutionConfig : Type 0 where
  pub capsule : ReplayCapsule
  pub run : ReplayRun
  pub plan : ReplayPlan
  pub fixtures : FixtureSet
  pub latency_ms : ℤ
  pub verify_digest : ReplayCapsule → Bool
  pub pack_issues : ReplayCapsule → List ValidationIssue
  -- A nil runner is `none`.
  pub runner : Option (RunnerConfig → Result String RunResult)

pub record ExecutionResult : Type 0 where
  pub events : List ExecutionEvent
  pub isolation : IsolationEvidence

run_with :
    Option (RunnerConfig → Result String RunResult) → RunnerConfig → Result ExecuteError RunResult
run_with none cfg = err execute_failed
run_with (some runner) cfg = or_fail (runner cfg) execute_failed

unfoldable pub execute : (String → String) → ExecutionConfig → Result ExecuteError ExecutionResult
unfolding run_with
execute host_of cfg = do
  reject (not (cfg.verify_digest cfg.capsule)) invalid_digest
  reject (not (is_nil (cfg.pack_issues cfg.capsule))) pack_validation
  validate_replay_safety cfg.capsule cfg.run cfg.plan cfg.fixtures
  result ← run_with cfg.runner (record {
    run_id = cfg.run.run_id;
    namespace = "replay-run-" +++ cfg.run.run_id;
    plan = cfg.plan;
    fixtures = cfg.fixtures;
    latency_ms = cfg.latency_ms;
  })
  reject result.teardown teardown_failed
  or_fail (validate_isolation host_of result.isolation) unsafe_replay
  reject (is_nil result.events) no_replay_events
  reject (not (all (λ (e : ExecutionEvent). e.replay_run_id == cfg.run.run_id) result.events))
      missing_run_id
  ok (record { events = result.events; isolation = result.isolation })

-- The worker's `finalizeExecuteError`: the terminal status and the code of each error.
unfoldable pub terminal_of : ExecuteError → RunStatus × ErrorCode
terminal_of invalid_digest = (RunStatus.blocked, ErrorCode.integrity_mismatch)
terminal_of pack_validation = (RunStatus.blocked, ErrorCode.sanitization_failed)
terminal_of unsafe_replay = (RunStatus.blocked, ErrorCode.destination_blocked)
terminal_of invalid_intervention = (RunStatus.blocked, ErrorCode.intervention_invalid)
terminal_of teardown_failed = (RunStatus.blocked, ErrorCode.isolation_violation)
terminal_of missing_run_id = (RunStatus.blocked, ErrorCode.integrity_mismatch)
terminal_of _ = (RunStatus.failed, ErrorCode.internal_failure)
