-- ===== src/Replay/Lifecycle.antt =====
-- internal/replay/replay.go, internal/replay/executor.go and cmd/replay-worker/main.go: how a run is
-- created, advanced and ended. The store is that of Core/Runs; `now` is the text of
-- `time.Now().UTC().Format(time.RFC3339Nano)`.
use clausa_lens.Prelude.{
  String, Bool, true, Option, none, some, List, [], string_eq, ℤ, Result, ok, err, ◌>>◌, or_fail,
  if◌then◌else◌,
}
use clausa_lens.Contracts.RunEnums.{
  RunType, RunStatus, Outcome, run_type_eq, run_status_eq, outcome_eq,
}
use clausa_lens.Contracts.IncidentEnums.{ErrorCode}
use clausa_lens.Contracts.Incident.{RunError}
use clausa_lens.Contracts.Text.{contract_version}
use clausa_lens.Contracts.Event.{ExecutionEvent}
use clausa_lens.Contracts.Isolation.{IsolationEvidence}
use clausa_lens.Contracts.Capsule.{EffectSummary}
use clausa_lens.Contracts.Run.{Intervention, OracleResult, ReplayRun, is_terminal}
use clausa_lens.Contracts.RunCheck.{validate_run}
use clausa_lens.Core.Store.{Store, StoreError}
use clausa_lens.Core.Runs.{transition_run}
use clausa_lens.Replay.Targets.{
  derive_outcome, require_time, internal_error, new_run_type, failed_run, orphaned_run, ended_run,
  completed_run, advanced_run,
}
use clausa_lens.Replay.Isolation.{validate_isolation, safe_isolation}
use clausa_lens.Checkout.Oracle.{ids_of}

-- A function of the package fails by a message of its own or by the store's refusal.
pub data ReplayError : Type 0 where
  replay_error : String → ReplayError
  store_refused : StoreError → ReplayError

-- A step of the store, as the package reports it.
abbrev pub stored : ReplayRun → Result StoreError Store → Result ReplayError (Store × ReplayRun)
stored run (ok s) = ok (s, run)
stored run (err e) = err (store_refused e)

module _ (host_of : String → String) where
  unfoldable pub new_run :
      String
      → String
      → String
      → String
      → RunType
      → String
      → Option Intervention
      → ℤ
      → Result String ReplayRun
  new_run run_id execution_id capsule_id capsule_hash run_type baseline_run_id intervention trial =
      let run : ReplayRun = record {
        schema_version = contract_version;
        run_id = run_id;
        execution_id = execution_id;
        capsule_id = capsule_id;
        capsule_hash = capsule_hash;
        run_type = run_type;
        baseline_run_id = baseline_run_id;
        intervention = intervention;
        trial_number = trial;
        status = RunStatus.created;
        outcome = Outcome.unset;
        started_at = "";
        completed_at = "";
        observed_event_ids = [];
        effect_summary = none;
        failure_oracle_result = none;
        isolation_evidence = none;
        error = none;
      } in
      new_run_type run_type baseline_run_id intervention >> validate_run host_of run >> ok run

  unfoldable pub advance_run :
      Bool → String → ReplayRun → RunStatus → Store → Result ReplayError (Store × ReplayRun)
  advance_run ctx now run to s =
      let next = advanced_run now to run in
      stored next (transition_run host_of ctx run.status next s)

  -- The end that both finalizers share: validate, and store unless the run has ended already.
  unfoldable pub finish_run :
      Bool → ReplayRun → ReplayRun → Store → Result ReplayError (Store × ReplayRun)
  unfolding is_terminal
  finish_run ctx run target s =
      or_fail (validate_run host_of target) (replay_error "replay: finalize is invalid")
      >> (if is_terminal run.status
          then ok (s, target)
          else stored target (transition_run host_of ctx run.status target s))

  unfoldable pub finalize_completed :
      Bool
      → String
      → ReplayRun
      → Outcome
      → Option EffectSummary
      → Option OracleResult
      → Option IsolationEvidence
      → Store
      → Result ReplayError (Store × ReplayRun)
  finalize_completed ctx now run outcome effects oracle none s =
      err (replay_error "replay: completed run requires isolation evidence")
  finalize_completed ctx now run outcome effects oracle (some isolation) s = do
    or_fail (validate_isolation host_of isolation)
        (replay_error "replay: refusing COMPLETED run with unsafe isolation")
    finish_run ctx run (completed_run now outcome effects oracle isolation run) s

  unfoldable pub finalize_run :
      Bool
      → String
      → ReplayRun
      → Outcome
      → Option EffectSummary
      → Option OracleResult
      → Option IsolationEvidence
      → Option RunError
      → Store
      → Result ReplayError (Store × ReplayRun)
  unfolding finalize_completed
  finalize_run ctx now run outcome effects oracle isolation (some e) s =
      finish_run ctx run (failed_run now e run) s
  finalize_run ctx now run outcome effects oracle isolation none s =
      finalize_completed ctx now run outcome effects oracle isolation s

  unfoldable pub finalize_orphan :
      Bool → String → ReplayRun → Store → Result ReplayError (Store × ReplayRun)
  finalize_orphan ctx now run s = finish_run ctx run (orphaned_run now run) s

  -- The worker's `finalizeTerminal`, and so `finalizeBlocked` and `finalizeFailed`.
  unfoldable pub finalize_terminal :
      Bool
      → String
      → ReplayRun
      → RunStatus
      → ErrorCode
      → String
      → Store
      → Result ReplayError (Store × ReplayRun)
  finalize_terminal ctx now run status code message s =
      finish_run ctx run (ended_run now status code message run) s

  -- `Evaluate`, given the pack's answer about the events.
  unfoldable pub evaluate_run :
      String
      → ReplayRun
      → List ExecutionEvent
      → Result String OracleResult
      → Result String ReplayRun
  evaluate_run now run events (err e) =
      let failed = record run {
        status = RunStatus.failed;
        outcome = Outcome.unset;
        completed_at = now;
        started_at = require_time now run.started_at;
        error = some (
            internal_error ErrorCode.internal_failure "replay: outcome evaluation failed" true run);
      } in
      validate_run host_of failed >> ok failed
  evaluate_run now run events (ok oracle) =
      let completed = record run {
        status = RunStatus.completed;
        outcome = derive_outcome run.run_type oracle.matched;
        effect_summary = some oracle.effect_summary;
        failure_oracle_result = some oracle;
        isolation_evidence = some (safe_isolation run.run_id);
        observed_event_ids = ids_of events;
        completed_at = now;
        started_at = require_time now run.started_at;
        error = none;
      } in
      validate_run host_of completed >> ok completed
