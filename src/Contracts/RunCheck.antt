-- ===== src/Contracts/RunCheck.antt =====
-- internal/contracts/contracts.go: `ReplayRun.Validate`, one function for each run of tests.
use clausa_lens.Prelude.{
  String, Bool, false, ◌&&◌, ◌||◌, not, Option, none, some, is_some, is_sha256, ◌==◌, ◌!=◌,
  string_eq, int_eq, pos, ◌<ℤ◌, Check, ok, err, reject, ◌>>◌, if◌then◌else◌,
}
use clausa_lens.Contracts.RunEnums.{
  RunType, RunStatus, Outcome, Verdict, run_type_eq, run_status_eq, outcome_eq, verdict_eq,
  valid_run_status,
}
use clausa_lens.Contracts.IncidentEnums.{ErrorCode, error_code_eq}
use clausa_lens.Contracts.Incident.{validate_run_error}
use clausa_lens.Contracts.Time.{valid_utc_time}
use clausa_lens.Contracts.Text.{contract_version}
use clausa_lens.Contracts.Isolation.{IsolationEvidence, validate_isolation_evidence, xor}
use clausa_lens.Contracts.Run.{
  Intervention, OracleResult, ReplayRun, validate_intervention, validate_effect_summary,
  validate_oracle_result, is_terminal,
}

-- `if p != nil { if err := p.validate(); … }`
abbrev pub check_some : {A : Type 0} → (A → Check) → Option A → Check
check_some f none = ok tt
check_some f (some a) = f a

unfoldable pub check_run_fields : ReplayRun → Check
check_run_fields r =
    reject
      (r.schema_version != contract_version
        || r.run_id == ""
        || r.execution_id == ""
        || r.capsule_id == ""
        || not (is_sha256 r.capsule_hash)
        || r.trial_number <ℤ pos 1
        || not (valid_run_status r.status))
      "missing or invalid replay run field"

unfoldable pub check_run_type : RunType → String → Option Intervention → Check
check_run_type RunType.baseline baseline_run_id intervention =
    reject (baseline_run_id != "" || is_some intervention)
      "baseline must omit baseline_run_id and intervention"
check_run_type RunType.what_if baseline_run_id intervention =
    reject (baseline_run_id == "" || not (is_some intervention))
      "what-if requires baseline_run_id and intervention"
check_run_type (RunType.other s) baseline_run_id intervention = err "invalid run_type"

unfoldable pub check_times : ReplayRun → Check
unfolding is_terminal
check_times r = do
  reject (r.started_at != "" && not (valid_utc_time r.started_at)) "started_at must be RFC3339 UTC"
  reject (r.completed_at != "" && not (valid_utc_time r.completed_at))
      "completed_at must be RFC3339 UTC"
  reject ((r.status == RunStatus.created || r.status == RunStatus.validating) && r.started_at != "")
      "started_at must be absent before runtime"
  reject (r.status == RunStatus.running && r.started_at == "")
      "started_at is required once runtime begins"
  reject ((r.status == RunStatus.completed || r.status == RunStatus.failed) && r.started_at == "")
      "started_at is required for runtime-terminal statuses"
  reject (xor (is_terminal r.status) (r.completed_at != ""))
      "completed_at is required exactly for terminal statuses"

abbrev pub verdict_passes : Option IsolationEvidence → Bool
verdict_passes none = false
verdict_passes (some i) = i.verdict == Verdict.pass

-- The outcome of a completed run against its run type and its oracle.
unfoldable pub check_outcome_set : RunType → Outcome → Check
check_outcome_set RunType.baseline outcome =
    reject
      (not (
        outcome == Outcome.reproduced
        || outcome == Outcome.not_reproduced
        || outcome == Outcome.inconclusive))
      "outcome is invalid for baseline"
check_outcome_set RunType.what_if outcome =
    reject
      (not (
        outcome == Outcome.mitigated
        || outcome == Outcome.unchanged
        || outcome == Outcome.inconclusive))
      "outcome is invalid for what-if"
check_outcome_set (RunType.other s) outcome = ok tt

unfoldable pub check_outcome_oracle : RunType → Outcome → Bool → Check
check_outcome_oracle RunType.baseline outcome matched = do
  reject (outcome == Outcome.reproduced && not matched) "REPRODUCED requires a matched oracle"
  reject (outcome == Outcome.not_reproduced && matched)
      "NOT_REPRODUCED requires an unmatched oracle"
check_outcome_oracle RunType.what_if outcome matched = do
  reject (outcome == Outcome.mitigated && matched) "MITIGATED requires an unmatched oracle"
  reject (outcome == Outcome.unchanged && not matched) "UNCHANGED requires a matched oracle"
check_outcome_oracle (RunType.other s) outcome matched = ok tt

abbrev pub oracle_matched : Option OracleResult → Bool
oracle_matched none = false
oracle_matched (some o) = o.matched

unfoldable pub check_error : ReplayRun → Check
check_error r = do
  reject (xor (r.status == RunStatus.failed || r.status == RunStatus.blocked) (is_some r.error))
      "error is required exactly for failed and blocked runs"
  check_some
      (λ e.
        reject
          (r.status == RunStatus.blocked
            && (e.code == ErrorCode.isolation_violation || e.code == ErrorCode.destination_blocked)
            && not (is_some r.isolation_evidence))
          "isolation-related blocked run requires isolation evidence"
        >> validate_run_error e)
      r.error

module _ (host_of : String → String) where
  unfoldable pub check_completed : ReplayRun → Check
  check_completed r = do
    reject
        (r.outcome == Outcome.unset
          || not (is_some r.effect_summary)
          || not (is_some r.failure_oracle_result)
          || not (verdict_passes r.isolation_evidence)
          || is_some r.error)
        "completed run lacks required safe result"
    check_outcome_set r.run_type r.outcome
    check_some validate_effect_summary r.effect_summary
    check_some validate_oracle_result r.failure_oracle_result
    check_some (validate_isolation_evidence host_of) r.isolation_evidence
    check_outcome_oracle r.run_type r.outcome (oracle_matched r.failure_oracle_result)

  unfoldable pub check_result : ReplayRun → Check
  check_result r =
      if r.status == RunStatus.completed
      then check_completed r
      else reject (r.outcome != Outcome.unset) "non-completed run must omit outcome"

  unfoldable pub check_evidence : ReplayRun → Check
  check_evidence r =
      if r.status != RunStatus.completed
      then check_some (validate_isolation_evidence host_of) r.isolation_evidence
      else ok tt

  unfoldable pub validate_run : ReplayRun → Check
  validate_run r = do
    check_run_fields r
    check_run_type r.run_type r.baseline_run_id r.intervention
    check_some validate_intervention r.intervention
    check_evidence r
    check_times r
    check_result r
    check_error r
