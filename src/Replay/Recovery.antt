-- ===== src/Replay/Recovery.antt =====
-- internal/replay: the failing ends of a run that the store holds, and when they succeed.
use clausa_lens.Prelude.{
  String, true, false, none, some, ◌≡◌, ◌≢◌, ◌⊎◌, refl, arith, ok, string_eq, lookup, insert, inr,
  eq_refl, is_blank, subst, option_eq, int_eq,
}
use clausa_lens.Contracts.RunEnums.{RunStatus, Outcome, run_status_eq, run_type_eq, outcome_eq}
use clausa_lens.Contracts.IncidentEnums.{ErrorCode, error_code_eq}
use clausa_lens.Contracts.Incident.{RunError, validate_run_error}
use clausa_lens.Contracts.Time.{valid_utc_time}
use clausa_lens.Contracts.Run.{ReplayRun, is_terminal, can_transition, intervention_eq}
use clausa_lens.Contracts.RunCheck.{
  validate_run, check_run_fields, check_times, check_result, check_error, check_evidence,
}
use clausa_lens.Contracts.RunFacts.{validate_run-Accepted, Accepted-validate_run}
use clausa_lens.Core.Store.{Store}
use clausa_lens.Core.Runs.{transition_run, same_identity}
use clausa_lens.Replay.Lifecycle.{finish_run, finalize_orphan, finalize_run}
use clausa_lens.Replay.Targets.{orphaned_run, internal_error, failed_run, require_time}

-- A run that has begun and not ended.
abbrev pub Unfinished : ReplayRun → Type 0
Unfinished r = (r.status ≡ RunStatus.validating) ⊎ (r.status ≡ RunStatus.running)

module _ (host_of : String → String) where
  failing_fields :
      (r : ReplayRun) (now : String) (e : RunError)
      → check_run_fields r ≡ ok tt
      → check_run_fields (failed_run now e r) ≡ ok tt
  unfolding check_run_fields failed_run
  failing_fields r now e h = ground arith

  failing_times :
      (r : ReplayRun) (now : String) (e : RunError)
      → check_times r ≡ ok tt
      → Unfinished r
      → valid_utc_time now ≡ true
      → now ≢ ""
      → check_times (failed_run now e r) ≡ ok tt
  unfolding check_times failed_run
  failing_times r now e h u t n = ground (
    arith,
    string_eq.beq_iff r.started_at "",
    string_eq.beq_iff r.completed_at "",
    string_eq.beq_iff now "",
  )

  failing_valid :
      (r : ReplayRun) (now : String) (e : RunError)
      → validate_run host_of r ≡ ok tt
      → Unfinished r
      → valid_utc_time now ≡ true
      → now ≢ ""
      → validate_run_error e ≡ ok tt
      → validate_run host_of (failed_run now e r) ≡ ok tt
  unfolding failed_run check_evidence check_result check_error
  failing_valid r now e valid u t n sound =
      let a = validate_run-Accepted host_of r valid in
      Accepted-validate_run host_of (failed_run now e r) (record {
        fields = failing_fields r now e a.fields;
        kind = a.kind;
        changes = a.changes;
        evidence = ground (arith, a.evidence);
        times = failing_times r now e a.times u t n;
        result = ground arith;
        error = ground arith;
      })

  failing_identity :
      (r : ReplayRun) (now : String) (e : RunError)
      → same_identity r.status r (failed_run now e r) ≡ true
  unfolding same_identity failed_run
  failing_identity r now e = rw (
    eq_refl r.status,
    eq_refl r.execution_id,
    eq_refl r.capsule_id,
    eq_refl r.capsule_hash,
    eq_refl r.run_type,
    eq_refl r.baseline_run_id,
    eq_refl r.intervention,
    eq_refl r.trial_number,
  )

  failing_legal : (r : ReplayRun) → Unfinished r → can_transition r.status RunStatus.failed ≡ true
  unfolding can_transition
  failing_legal r u = ground arith

  Unfinished-open : (r : ReplayRun) → Unfinished r → is_terminal r.status ≡ false
  unfolding is_terminal
  Unfinished-open r u = ground arith

  -- The store accepts the failing end of an unfinished run that it holds.
  failing_stored :
      (r target : ReplayRun) (s : Store)
      → lookup target.run_id s.runs ≡ some r
      → validate_run host_of target ≡ ok tt
      → can_transition r.status target.status ≡ true
      → same_identity r.status r target ≡ true
      → transition_run host_of false r.status target s
        ≡ ok (record s { runs = insert target.run_id target s.runs })
  unfolding transition_run
  failing_stored r target s at valid legal identity = rw (valid, legal, at, identity)

  finish_stored :
      (r target : ReplayRun) (s t : Store)
      → validate_run host_of target ≡ ok tt
      → is_terminal r.status ≡ false
      → transition_run host_of false r.status target s ≡ ok t
      → finish_run host_of false r target s ≡ ok (t, target)
  unfolding finish_run
  finish_stored r target s t valid open_run stored = rw (valid, open_run, stored)

  finish_failed :
      (now : String) (r : ReplayRun) (e : RunError) (target : ReplayRun) (s : Store)
      → failed_run now e r ≡ target
      → lookup r.run_id s.runs ≡ some r
      → validate_run host_of r ≡ ok tt
      → Unfinished r
      → valid_utc_time now ≡ true
      → now ≢ ""
      → validate_run_error e ≡ ok tt
      → finish_run host_of false r target s
        ≡ ok (record s { runs = insert r.run_id target s.runs }, target)
  unfolding failed_run
  finish_failed now r e target s is at valid u t n sound =
      let fine = failing_valid r now e valid u t n sound in
      subst
        (λ q. finish_run host_of false r q s ≡ ok (record s { runs = insert r.run_id q s.runs }, q))
        is
        (finish_stored r (failed_run now e r) s _ fine (Unfinished-open r u) (
          failing_stored r (failed_run now e r) s at fine (failing_legal r u)
            (failing_identity r now e)))

  -- `FinalizeRun` with an error ends every valid VALIDATING or RUNNING run that the store holds: at a
  -- valid time, with a valid error and the context live, the run stands in the store FAILED, with that
  -- error and a start and an end.
  pub failing_end_succeeds :
      (now : String) (r : ReplayRun) (e : RunError) (s : Store)
      → lookup r.run_id s.runs ≡ some r
      → validate_run host_of r ≡ ok tt
      → Unfinished r
      → valid_utc_time now ≡ true
      → now ≢ ""
      → validate_run_error e ≡ ok tt
      → finalize_run host_of false now r Outcome.unset none none none (some e) s
        ≡ ok (record s { runs = insert r.run_id (failed_run now e r) s.runs }, failed_run now e r)
  unfolding finalize_run failed_run
  failing_end_succeeds now r e s at valid u t n sound =
      let target = failed_run now e r in
      let fine = failing_valid r now e valid u t n sound in
      finish_stored r target s _ fine (Unfinished-open r u)
        (failing_stored r target s at fine (failing_legal r u) (failing_identity r now e))

  -- The error that `FinalizeOrphan` writes.
  abbrev orphan_error : ReplayRun → RunError
  orphan_error r =
      internal_error ErrorCode.internal_failure
        "replay worker: previous run was orphaned mid-lifecycle; not re-executed" false r

  orphan_error_valid : (r : ReplayRun) → validate_run_error (orphan_error r) ≡ ok tt
  unfolding validate_run_error is_blank
  orphan_error_valid r = refl

  begun_time : (now started : String) → started ≢ "" → require_time now started ≡ started
  begun_time now started begun = ground (arith, string_eq.beq_iff started "")

  orphan_is_failed :
      (r : ReplayRun) (now : String)
      → r.started_at ≢ ""
      → failed_run now (orphan_error r) r ≡ orphaned_run now r
  unfolding orphaned_run failed_run
  orphan_is_failed r now begun = rw (begun_time now r.started_at begun)

  running_begun :
      (r : ReplayRun) → r.status ≡ RunStatus.running → check_times r ≡ ok tt → r.started_at ≢ ""
  unfolding check_times
  running_begun r h k = ground (arith, string_eq.beq_iff r.started_at "")

  -- `FinalizeOrphan` ends every valid RUNNING run that the store holds: at a valid time and with the
  -- context live, the run stands in the store FAILED, with a start and an end.
  pub running_orphan_ends :
      (now : String) (r : ReplayRun) (s : Store)
      → lookup r.run_id s.runs ≡ some r
      → validate_run host_of r ≡ ok tt
      → r.status ≡ RunStatus.running
      → valid_utc_time now ≡ true
      → now ≢ ""
      → finalize_orphan host_of false now r s
        ≡ ok (record s { runs = insert r.run_id (orphaned_run now r) s.runs }, orphaned_run now r)
  unfolding finalize_orphan
  running_orphan_ends now r s at valid running t n =
      let begun = running_begun r running (validate_run-Accepted host_of r valid).times in
      finish_failed now r (orphan_error r) (orphaned_run now r) s (orphan_is_failed r now begun) at
        valid (inr running) t n (orphan_error_valid r)
