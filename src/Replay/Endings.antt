-- ===== src/Replay/Endings.antt =====
-- internal/replay/replay.go, internal/replay/executor.go and the worker: how runs end.
use clausa_lens.Contracts.RunFacts.{validate_run-Accepted}
use clausa_lens.Prelude.{
  ok, eq_sound, String, Bool, true, none, some, ◌≡◌, ◌⊎◌, refl, arith, err, is_err, string_eq,
}
use clausa_lens.Contracts.RunEnums.{RunStatus, run_status_eq, run_type_eq, outcome_eq, verdict_eq}
use clausa_lens.Contracts.IncidentEnums.{ErrorCode, error_code_eq}
use clausa_lens.Contracts.Incident.{RunError}
use clausa_lens.Contracts.Run.{ReplayRun}
use clausa_lens.Contracts.RunCheck.{validate_run, check_times, check_error}
use clausa_lens.Core.Store.{Store}
use clausa_lens.Replay.Lifecycle.{replay_error, finish_run, finalize_orphan, finalize_terminal}
use clausa_lens.Replay.Targets.{orphaned_run, ended_run}

module _ (host_of : String → String) where
  -- What is written of a run is valid.
  finish_run-valid :
      (ctx : Bool) (run target : ReplayRun) (s : Store)
      → is_err (validate_run host_of target) ≡ true
      → finish_run host_of ctx run target s ≡ err (replay_error "replay: finalize is invalid")
  unfolding finish_run
  finish_run-valid ctx run target s h = ground arith

  unstarted_failed :
      (r : ReplayRun)
      → r.status ≡ RunStatus.failed
      → r.started_at ≡ ""
      → is_err (check_times r) ≡ true
  unfolding check_times
  unstarted_failed r h k = ground (arith, string_eq.beq_iff r.started_at "")

  bad_times :
      (r : ReplayRun) → is_err (check_times r) ≡ true → is_err (validate_run host_of r) ≡ true
  unfolding validate_run
  bad_times r h = ground arith

  validating_unstarted :
      (r : ReplayRun) → check_times r ≡ ok tt → r.status ≡ RunStatus.validating → r.started_at ≡ ""
  unfolding check_times
  validating_unstarted r h k = eq_sound r.started_at "" (ground arith)

  -- `FinalizeOrphan` refuses every valid VALIDATING run, whatever the store and the time: such a run
  -- has no `started_at`, and the validator refuses a FAILED run without one.
  pub unstarted_orphan_stays :
      (ctx : Bool) (now : String) (run : ReplayRun) (s : Store)
      → validate_run host_of run ≡ ok tt
      → run.status ≡ RunStatus.validating
      → finalize_orphan host_of ctx now run s ≡ err (replay_error "replay: finalize is invalid")
  unfolding finalize_orphan orphaned_run
  unstarted_orphan_stays ctx now run s valid status =
      let new = validating_unstarted run (validate_run-Accepted host_of run valid).times status in
      finish_run-valid ctx run (orphaned_run now run) s
        (bad_times (orphaned_run now run) (unstarted_failed (orphaned_run now run) refl new))

  kept_evidence :
      (r : ReplayRun) (e : RunError)
      → r.status ≡ RunStatus.blocked
      → r.error ≡ some e
      → r.isolation_evidence ≡ none
      → (e.code ≡ ErrorCode.isolation_violation) ⊎ (e.code ≡ ErrorCode.destination_blocked)
      → is_err (check_error r) ≡ true
  unfolding check_error
  kept_evidence r e h k j c = ground arith

  bad_error :
      (r : ReplayRun) → is_err (check_error r) ≡ true → is_err (validate_run host_of r) ≡ true
  unfolding validate_run
  bad_error r h = ground arith

  -- The worker's `finalizeBlocked` with DESTINATION_BLOCKED or ISOLATION_VIOLATION, its answer to an
  -- unsafe replay or a failed teardown, refuses every run that has no isolation evidence, whatever the
  -- store, the time and the message.
  pub unsafe_end_refused :
      (ctx : Bool) (now : String) (run : ReplayRun) (code : ErrorCode) (message : String)
      (s : Store)
      → run.isolation_evidence ≡ none
      → (code ≡ ErrorCode.isolation_violation) ⊎ (code ≡ ErrorCode.destination_blocked)
      → finalize_terminal host_of ctx now run RunStatus.blocked code message s
        ≡ err (replay_error "replay: finalize is invalid")
  unfolding finalize_terminal ended_run
  unsafe_end_refused ctx now run code message s bare c =
      let target = ended_run now RunStatus.blocked code message run in
      finish_run-valid ctx run target s (bad_error target (kept_evidence target _ refl refl bare c))
