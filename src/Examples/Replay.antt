-- ===== src/Examples/Replay.antt =====
-- Tests of the replay of runs, and its theorems at concrete runs.
use clausa_lens.Prelude.{
  true, false, none, some, [], ◌∷◌, pos, ok, err, ◌≡◌, ◌≢◌, refl, inl, inr, lookup, insert,
  is_blank, string_eq,
}
use clausa_lens.Contracts.EventEnums.{EventType}
use clausa_lens.Contracts.RunEnums.{RunStatus, Outcome}
use clausa_lens.Contracts.IncidentEnums.{ErrorCode}
use clausa_lens.Contracts.Incident.{RunError, validate_run_error}
use clausa_lens.Contracts.Time.{valid_utc_time, parse_time}
use clausa_lens.Contracts.Values.{end}
use clausa_lens.Contracts.Isolation.{is_replay_datastore}
use clausa_lens.Contracts.Run.{ReplayRun, is_terminal}
use clausa_lens.Core.Store.{Store, new_store}
use clausa_lens.Replay.Isolation.{validate_isolation}
use clausa_lens.Replay.Lifecycle.{replay_error, finalize_run, finalize_orphan, finalize_terminal}
use clausa_lens.Replay.Targets.{failed_run, orphaned_run}
use clausa_lens.Replay.Execute.{
  ExecutionConfig, ExecutionResult, RunResult, execute, validate_replay_safety, replay_only_plan,
}
use clausa_lens.Replay.Endings.{unstarted_orphan_stays, unsafe_end_refused}
use clausa_lens.Replay.Recovery.{failing_end_succeeds, running_orphan_ends}
use clausa_lens.Replay.Outcome.{Completed, completed_run_derived}
use clausa_lens.Replay.Stored.{Ended, finalize_run-Ended}
use clausa_lens.Replay.Creation.{Begins, new_run-Begins}
use clausa_lens.Replay.Lifecycle.{new_run}
use clausa_lens.Replay.Targets.{new_run_type}
use clausa_lens.Examples.Data.{digest, baseline}
use clausa_lens.Contracts.RunEnums.{RunType}
use clausa_lens.Replay.Safety.{Isolated, validate_isolation-Isolated, Executed, execute-Executed}
use clausa_lens.Examples.Data.{host, validating, running, completed, isolated, noon, event}
use clausa_lens.Examples.Valid.{runs_valid}
use clausa_lens.Examples.Capsules.{capsule}

abbrev holding : ReplayRun → Store
holding r = record new_store { runs = ("run-1", r) ∷ [] }

abbrev broken : RunError
broken = record {
  code = ErrorCode.internal_failure;
  message = "the runner failed";
  retryable = false;
  details = some end;
}

broken_valid : validate_run_error broken ≡ ok tt
unfolding validate_run_error is_blank
broken_valid = refl

noon_valid : valid_utc_time noon ≡ true
unfolding valid_utc_time parse_time
noon_valid = refl

noon_given : noon ≢ ""
noon_given h = absurd (cc h)

held : (r : ReplayRun) → lookup "run-1" (holding r).runs ≡ some r
unfolding lookup
held r = refl

unstarted_orphan_stays_example :
    finalize_orphan host false noon validating (holding validating)
    ≡ err (replay_error "replay: finalize is invalid")
unstarted_orphan_stays_example =
    unstarted_orphan_stays host false noon validating (holding validating) runs_valid.1 refl

unsafe_end_refused_example :
    finalize_terminal host false noon running RunStatus.blocked ErrorCode.destination_blocked
      "unsafe"
      (holding running)
    ≡ err (replay_error "replay: finalize is invalid")
unsafe_end_refused_example =
    unsafe_end_refused host false noon running ErrorCode.destination_blocked "unsafe"
      (holding running) refl (inr refl)

failing_end_succeeds_example :
    finalize_run host false noon validating Outcome.unset none none none
      (some broken)
      (holding validating)
    ≡ ok (
      record (holding validating) {
        runs = insert "run-1" (failed_run noon broken validating) (holding validating).runs;
      },
      failed_run noon broken validating,
    )
failing_end_succeeds_example =
    failing_end_succeeds host noon validating broken (holding validating) (held validating)
      runs_valid.1 (inl refl) noon_valid noon_given broken_valid

running_orphan_ends_example :
    finalize_orphan host false noon running (holding running)
    ≡ ok (
      record (holding running) {
        runs = insert "run-1" (orphaned_run noon running) (holding running).runs;
      },
      orphaned_run noon running,
    )
running_orphan_ends_example =
    running_orphan_ends host noon running (holding running) (held running) runs_valid.2 refl
      noon_valid noon_given

completed_run_derived_example : Completed host completed
completed_run_derived_example = completed_run_derived host completed runs_valid.3 refl

accepts_isolated : validate_isolation host isolated ≡ ok tt
unfolding validate_isolation is_replay_datastore
accepts_isolated = refl

validate_isolation-Isolated_example : Isolated host isolated
validate_isolation-Isolated_example = validate_isolation-Isolated host isolated accepts_isolated

abbrev run_result : RunResult
run_result = record {
  events = event "ev-1" EventType.timeout ∷ [];
  isolation = isolated;
  teardown = false;
}

abbrev config : ExecutionConfig
config = record {
  capsule = capsule;
  run = validating;
  plan = capsule.replay_plan;
  fixtures = record {
    state_fixtures = capsule.state_fixtures;
    dependency_fixtures = capsule.dependency_fixtures;
  };
  latency_ms = pos 350;
  verify_digest = λ c. true;
  pack_issues = λ c. [];
  runner = some (λ c. ok run_result);
}

abbrev executed : ExecutionResult
executed = record { events = run_result.events; isolation = isolated }

executes : execute host config ≡ ok executed
unfolding execute validate_replay_safety replay_only_plan
executes = rw accepts_isolated refl

execute-Executed_example : Executed host config executed
execute-Executed_example = execute-Executed host config executed (inl refl) executes

ends_running :
    finalize_run host false noon running Outcome.unset none none none
      (some broken)
      (holding running)
    ≡ ok (
      record (holding running) {
        runs = insert "run-1" (failed_run noon broken running) (holding running).runs;
      },
      failed_run noon broken running,
    )
ends_running =
    failing_end_succeeds host noon running broken (holding running) (held running) runs_valid.2
      (inr refl) noon_valid noon_given broken_valid

open_running : is_terminal running.status ≡ false
unfolding is_terminal
open_running = refl

finalize_run-Ended_example :
    Ended host running (failed_run noon broken running) (record (holding running) {
      runs = insert "run-1" (failed_run noon broken running) (holding running).runs;
    })
finalize_run-Ended_example =
    finalize_run-Ended host false noon running Outcome.unset none none none (some broken)
      (holding running) _ _ open_running ends_running

makes_baseline :
    new_run host "run-1" "exec-1" "cap-1" digest RunType.baseline "" none (pos 1) ≡ ok baseline
unfolding new_run new_run_type
makes_baseline = rw runs_valid.0 refl

no_run : lookup "run-1" new_store.runs ≡ none
unfolding lookup
no_run = refl

new_run-Begins_example : Begins host baseline 100 30 noon new_store
new_run-Begins_example =
    new_run-Begins host "run-1" "exec-1" "cap-1" digest none (pos 1) baseline 100 30 noon new_store
      makes_baseline no_run noon_valid noon_given
