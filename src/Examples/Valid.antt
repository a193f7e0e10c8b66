-- ===== src/Examples/Valid.antt =====
-- The validators accept the test data.
use clausa_lens.Prelude.{ok, ◌≡◌, refl, is_sha256, is_blank}
use clausa_lens.Contracts.Time.{valid_utc_time, parse_time}
use clausa_lens.Contracts.Text.{nonempty_strings}
use clausa_lens.Contracts.Isolation.{
  validate_isolation_evidence, isolation_fields, verdict_matches, isolation_failed,
  is_replay_datastore, check_simulator, check_denied, replay_only_host, validate_interaction,
}
use clausa_lens.Contracts.Incident.{validate_run_error}
use clausa_lens.Contracts.Run.{
  validate_effect_summary, validate_oracle_result, validate_intervention, is_terminal,
}
use clausa_lens.Contracts.RunCheck.{
  validate_run, check_run_fields, check_run_type, check_evidence, check_times, check_result,
  check_completed, check_outcome_set, check_outcome_oracle, check_error,
}
use clausa_lens.Examples.Data.{host, baseline, validating, running, completed, what_if}

pub runs_valid :
    (validate_run host baseline ≡ ok tt)
    × (validate_run host validating ≡ ok tt)
    × (validate_run host running ≡ ok tt)
    × (validate_run host completed ≡ ok tt)
    × (validate_run host what_if ≡ ok tt)
unfolding validate_run check_run_fields check_run_type check_evidence check_times check_result
    check_completed check_outcome_set check_outcome_oracle check_error validate_isolation_evidence
    isolation_fields verdict_matches isolation_failed is_replay_datastore check_simulator
    check_denied replay_only_host validate_interaction validate_run_error validate_effect_summary
    validate_oracle_result validate_intervention is_terminal nonempty_strings valid_utc_time
    parse_time is_sha256 is_blank
runs_valid = (refl, refl, refl, refl, refl)
