-- ===== src/Replay/Targets.antt =====
-- internal/replay/replay.go, internal/replay/executor.go and cmd/replay-worker/main.go: the runs that
-- a creation, an advance and an ending write. `now` is the text of
-- `time.Now().UTC().Format(time.RFC3339Nano)`.
use clausa_lens.Prelude.{
  String, Bool, false, ◌||◌, not, Option, none, some, ◌==◌, ◌!=◌, string_eq, Check, err, reject,
  ◌>>◌, is_some, if◌then◌else◌,
}
use clausa_lens.Contracts.RunEnums.{
  RunType, RunStatus, Outcome, run_type_eq, run_status_eq, outcome_eq,
}
use clausa_lens.Contracts.IncidentEnums.{ErrorCode}
use clausa_lens.Contracts.Incident.{RunError}
use clausa_lens.Contracts.Values.{field, end, str_val}
use clausa_lens.Contracts.Isolation.{IsolationEvidence}
use clausa_lens.Contracts.Capsule.{EffectSummary}
use clausa_lens.Contracts.Run.{Intervention, OracleResult, ReplayRun, is_terminal}

unfoldable pub derive_outcome : RunType → Bool → Outcome
derive_outcome run_type matched =
    if run_type == RunType.what_if
    then (if matched then Outcome.unchanged else Outcome.mitigated)
    else (if matched then Outcome.reproduced else Outcome.not_reproduced)

-- `requireStartedAt` and `requireCompletedAt`
abbrev pub require_time : String → String → String
require_time now value = if value != "" then value else now

abbrev pub internal_error : ErrorCode → String → Bool → ReplayRun → RunError
internal_error code message retryable run = record {
  code = code;
  message = message;
  retryable = retryable;
  details = some (field "run_id" (str_val run.run_id) end);
}

-- The `switch runType` of `NewRun`.
unfoldable pub new_run_type : RunType → String → Option Intervention → Check
new_run_type RunType.baseline baseline_run_id intervention =
    reject (baseline_run_id != "" || is_some intervention)
      "replay: baseline run must omit baseline_run_id and intervention"
new_run_type RunType.what_if baseline_run_id intervention = do
  reject (baseline_run_id == "") "replay: what-if run requires a baseline_run_id"
  reject (not (is_some intervention)) "replay: what-if run requires exactly one intervention"
new_run_type (RunType.other s) baseline_run_id intervention = err "replay: invalid run_type"

-- `target.Status = …` and what else every failing end of a run sets.
unfoldable pub failed_run : String → RunError → ReplayRun → ReplayRun
failed_run now e run = record run {
  status = RunStatus.failed;
  outcome = Outcome.unset;
  error = some e;
  completed_at = require_time now run.completed_at;
  started_at = require_time now run.started_at;
}

-- The target of `FinalizeOrphan`, which leaves `started_at` as it is.
unfoldable pub orphaned_run : String → ReplayRun → ReplayRun
orphaned_run now run = record run {
  status = RunStatus.failed;
  outcome = Outcome.unset;
  error = some (
      internal_error ErrorCode.internal_failure
        "replay worker: previous run was orphaned mid-lifecycle; not re-executed" false run);
  completed_at = require_time now run.completed_at;
}

-- The target of the worker's `finalizeTerminal`.
unfoldable pub ended_run : String → RunStatus → ErrorCode → String → ReplayRun → ReplayRun
ended_run now status code message run = record run {
  status = status;
  outcome = Outcome.unset;
  error = some (internal_error code message false run);
  completed_at = now;
}

unfoldable pub completed_run :
    String
    → Outcome
    → Option EffectSummary
    → Option OracleResult
    → IsolationEvidence
    → ReplayRun
    → ReplayRun
completed_run now outcome effects oracle isolation run = record run {
  status = RunStatus.completed;
  outcome = outcome;
  effect_summary = effects;
  failure_oracle_result = oracle;
  isolation_evidence = some isolation;
  error = none;
  completed_at = require_time now run.completed_at;
  started_at = require_time now run.started_at;
}

-- The timestamps that `AdvanceRun` assigns for the target status.
unfoldable pub advanced_run : String → RunStatus → ReplayRun → ReplayRun
unfolding is_terminal
advanced_run now to run =
    let next = record run { status = to } in
    if to == RunStatus.running
    then record next { started_at = require_time now run.started_at }
    else if is_terminal to
    then record next { completed_at = require_time now run.completed_at }
    else next
