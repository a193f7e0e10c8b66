-- ===== src/Contracts/Reset.antt =====
-- internal/contracts/contracts.go: the reset of the demo, its request and its result.
use clausa_lens.Prelude.{
  String, Bool, true, false, ◌||◌, not, Option, none, some, ◌==◌, ◌!=◌, string_eq, int_eq, ℤ, pos,
  ◌<ℤ◌, Check, ok, reject, ◌>>◌, is_some,
}
use clausa_lens.Contracts.Text.{contract_version}
use clausa_lens.Contracts.Isolation.{xor}
use clausa_lens.Contracts.Incident.{RunError, validate_run_error}

pub data ResetStatus : Type 0 where
  completed failed : ResetStatus
  other : String → ResetStatus

pub record ResetRequest : Type 0 where
  pub scenario_id : String

pub record ResetResult : Type 0 where
  pub schema_version : String
  pub reset_id : String
  pub status : ResetStatus
  pub cleared_incident_count : ℤ
  pub cleared_run_count : ℤ
  pub cleared_ledger_count : ℤ
  pub fixture_version : String
  pub configured_latency_ms : ℤ
  pub deduplication_enabled : Bool
  pub next_logical_operation_id : String
  pub error : Option RunError

unfoldable pub validate_reset_request : ResetRequest → Check
validate_reset_request r =
    reject (r.scenario_id != "checkout_duplicate_effect")
      "scenario_id must be checkout_duplicate_effect"

abbrev valid_reset_status : ResetStatus → Bool
valid_reset_status ResetStatus.completed = true
valid_reset_status ResetStatus.failed = true
valid_reset_status (ResetStatus.other s) = false

abbrev reset_failed : ResetStatus → Bool
reset_failed ResetStatus.failed = true
reset_failed _ = false

abbrev check_reset_error : Option RunError → Check
check_reset_error none = ok tt
check_reset_error (some e) = validate_run_error e

unfoldable pub validate_reset_result : ResetResult → Check
validate_reset_result r = do
  reject
      (r.schema_version != contract_version
        || r.reset_id == ""
        || not (valid_reset_status r.status)
        || r.cleared_incident_count <ℤ pos 0
        || r.cleared_run_count <ℤ pos 0
        || r.cleared_ledger_count <ℤ pos 0
        || r.fixture_version != "1.0.0"
        || r.configured_latency_ms != pos 350
        || r.deduplication_enabled
        || r.next_logical_operation_id != "checkout-8271")
      "missing or invalid reset result field"
  reject (xor (reset_failed r.status) (is_some r.error))
      "error is required exactly for failed reset"
  check_reset_error r.error
