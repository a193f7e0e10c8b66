-- ===== src/Contracts/DiffCheck.antt =====
-- internal/contracts/contracts.go: the validators of a replay diff and of the requests.
use clausa_lens.Prelude.{
  String, ◌&&◌, ◌||◌, not, Option, none, some, is_some, is_blank, ◌==◌, ◌!=◌, string_eq, int_eq,
  pos, ◌<ℤ◌, ◌-ℤ◌, Check, ok, err, reject, ◌>>◌, check_all,
}
use clausa_lens.Contracts.RunEnums.{RunType}
use clausa_lens.Contracts.Text.{contract_version, nonempty_strings}
use clausa_lens.Contracts.Values.{valid_json_value, deep_equal}
use clausa_lens.Contracts.Isolation.{elements}
use clausa_lens.Contracts.Capsule.{effect_summary_eq}
use clausa_lens.Contracts.Run.{
  Intervention, validate_intervention, validate_effect_summary, validate_oracle_result,
}
use clausa_lens.Contracts.Diff.{
  EventAlignment, EventChange, FirstDivergence, ReplayDiff, CreateRunRequest, CreateDiffRequest,
}

unfoldable pub check_diff_fields : ReplayDiff → Check
check_diff_fields d =
    reject
      (d.schema_version != contract_version
        || d.diff_id == ""
        || d.baseline_run_id == ""
        || d.comparison_run_id == ""
        || d.baseline_run_id == d.comparison_run_id
        || d.alignment_version != contract_version
        || is_blank d.evidence_summary)
      "missing or invalid replay diff field"

unfoldable pub check_diff_parts : ReplayDiff → Check
check_diff_parts d = do
  validate_intervention d.intervention
  validate_oracle_result d.baseline_oracle_result
  validate_oracle_result d.comparison_oracle_result
  validate_effect_summary d.baseline_effect_summary
  validate_effect_summary d.comparison_effect_summary

unfoldable pub check_effect_delta : ReplayDiff → Check
check_effect_delta d =
    reject
      (d.baseline_oracle_result.effect_summary != d.baseline_effect_summary
        || d.comparison_oracle_result.effect_summary != d.comparison_effect_summary
        || d.effect_delta.payment_attempt_count
          != d.comparison_effect_summary.payment_attempt_count
            -ℤ d.baseline_effect_summary.payment_attempt_count
        || d.effect_delta.ledger_commit_count
          != d.comparison_effect_summary.ledger_commit_count
            -ℤ d.baseline_effect_summary.ledger_commit_count)
      "effect summaries or delta are inconsistent"

unfoldable pub check_diff_arrays : ReplayDiff → Check
check_diff_arrays d =
    reject
      (not (is_some d.matched_events)
        || not (is_some d.added_event_ids)
        || not (is_some d.removed_event_ids)
        || not (is_some d.changed_events)
        || not (is_some d.limitations)
        || not (nonempty_strings (elements d.added_event_ids))
        || not (nonempty_strings (elements d.removed_event_ids))
        || not (nonempty_strings (elements d.limitations)))
      "invalid replay diff array"

unfoldable pub check_alignment : EventAlignment → Check
check_alignment a =
    reject (a.baseline_event_id == "" || a.comparison_event_id == "") "invalid event alignment"

unfoldable pub check_change : EventChange → Check
check_change c =
    reject
      (c.baseline_event_id == ""
        || c.comparison_event_id == ""
        || c.field_name == ""
        || not (valid_json_value c.baseline_value)
        || not (valid_json_value c.comparison_value)
        || deep_equal c.baseline_value c.comparison_value)
      "invalid event change"

unfoldable pub check_divergence : Option FirstDivergence → Check
check_divergence none = ok tt
check_divergence (some v) =
    reject
      ((v.baseline_event_id == "" && v.comparison_event_id == "")
        || v.rule == ""
        || v.baseline_timeline_index <ℤ pos 0
        || v.comparison_timeline_index <ℤ pos 0
        || not (valid_json_value v.baseline_value)
        || not (valid_json_value v.comparison_value)
        || deep_equal v.baseline_value v.comparison_value)
      "invalid first meaningful divergence"

unfoldable pub validate_diff : ReplayDiff → Check
validate_diff d = do
  check_diff_fields d
  check_diff_parts d
  check_effect_delta d
  check_diff_arrays d
  check_all check_alignment (elements d.matched_events)
  check_all check_change (elements d.changed_events)
  check_divergence d.first_meaningful_divergence

check_request : RunType → String → Option Intervention → Check
check_request RunType.baseline baseline_run_id intervention =
    reject (baseline_run_id != "" || is_some intervention)
      "baseline must omit baseline_run_id and intervention"
check_request RunType.what_if baseline_run_id none =
    err "what-if requires baseline_run_id and intervention"
check_request RunType.what_if baseline_run_id (some i) =
    reject (baseline_run_id == "") "what-if requires baseline_run_id and intervention"
    >> validate_intervention i
check_request (RunType.other s) baseline_run_id intervention =
    err "what-if requires baseline_run_id and intervention"

unfoldable pub validate_create_run : CreateRunRequest → Check
unfolding check_request
validate_create_run r = check_request r.run_type r.baseline_run_id r.intervention

unfoldable pub validate_create_diff : CreateDiffRequest → Check
validate_create_diff r =
    reject
      (r.baseline_run_id == ""
        || r.comparison_run_id == ""
        || r.baseline_run_id == r.comparison_run_id)
      "distinct baseline_run_id and comparison_run_id are required"
