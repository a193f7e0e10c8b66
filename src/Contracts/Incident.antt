-- ===== src/Contracts/Incident.antt =====
-- internal/contracts/contracts.go: `Incident`, `RunError`, `ValidationIssue` and their validators.
use clausa_lens.Prelude.{
  String, Bool, ◌&&◌, ◌||◌, not, Option, none, some, List, is_some, is_nil, is_blank, has_prefix,
  ◌==◌, ◌!=◌, string_eq, Check, ok, reject, ◌>>◌,
}
use clausa_lens.Contracts.IncidentEnums.{
  IncidentStatus, SanitizationStatus, ErrorCode, valid_incident_status, valid_sanitization_status,
  valid_error_code, incident_status_eq, sanitization_status_eq,
}
use clausa_lens.Contracts.Time.{valid_utc_time}
use clausa_lens.Contracts.Values.{Fields}
use clausa_lens.Contracts.Text.{contract_version}

pub record SystemPackRef : Type 0 where
  pub id : String
  pub version : String
  pub interface_version : String

pub record FailureOracleRef : Type 0 where
  pub id : String
  pub version : String

pub record RunError : Type 0 where
  pub code : ErrorCode
  pub message : String
  pub retryable : Bool
  -- A nil map is `none`.
  pub details : Option Fields

pub record ValidationIssue : Type 0 where
  pub code : ErrorCode
  pub path : String
  pub message : String

pub record Incident : Type 0 where
  pub schema_version : String
  pub incident_id : String
  pub status : IncidentStatus
  pub block_reason : Option ValidationIssue
  pub failure_oracle : FailureOracleRef
  pub system_pack : SystemPackRef
  pub trace_id : String
  pub execution_id : String
  pub detected_at : String
  pub summary : String
  pub evidence_event_ids : List String
  pub graph_id : String
  pub sanitization_status : SanitizationStatus

unfoldable pub validate_run_error : RunError → Check
validate_run_error e =
    reject (not (valid_error_code e.code) || is_blank e.message || not (is_some e.details))
      "invalid run error"

unfoldable pub validate_issue : ValidationIssue → Check
validate_issue v =
    reject (not (valid_error_code v.code) || not (has_prefix v.path "/") || is_blank v.message)
      "invalid validation issue"

validate_block_reason : Option ValidationIssue → Check
unfolding validate_issue
validate_block_reason none = ok tt
validate_block_reason (some v) = validate_issue v

unfoldable pub validate_incident : Incident → Check
unfolding validate_block_reason
validate_incident i = do
  reject
      (i.schema_version != contract_version
        || i.incident_id == ""
        || i.trace_id == ""
        || i.execution_id == ""
        || i.summary == ""
        || i.failure_oracle.id == ""
        || i.failure_oracle.version == ""
        || i.system_pack.id == ""
        || i.system_pack.version == ""
        || i.system_pack.interface_version != contract_version)
      "missing or invalid incident field"
  reject
      (not (valid_utc_time i.detected_at)
        || is_nil i.evidence_event_ids
        || not (valid_sanitization_status i.sanitization_status)
        || not (valid_incident_status i.status))
      "invalid incident field"
  reject (i.status == IncidentStatus.blocked && not (is_some i.block_reason))
      "blocked incident requires block_reason"
  reject (i.status != IncidentStatus.blocked && is_some i.block_reason)
      "only blocked incident may have block_reason"
  reject
      (i.status == IncidentStatus.ready
        && (i.graph_id == "" || i.sanitization_status != SanitizationStatus.pass))
      "ready incident requires graph and passing sanitization"
  validate_block_reason i.block_reason
