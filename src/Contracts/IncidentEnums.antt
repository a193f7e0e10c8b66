-- ===== src/Contracts/IncidentEnums.antt =====
-- internal/contracts/contracts.go: the enumerations of an incident, and the frozen error codes.
use clausa_lens.Prelude.{String, ◌≡◌, Bool, true, false, arith, ◌↔◌, Eq, ◌==◌, string_eq}

-- IncidentStatus
pub data IncidentStatus : Type 0 where
  detected ready blocked : IncidentStatus
  other : String → IncidentStatus

abbrev pub incident_status_beq : IncidentStatus → IncidentStatus → Bool
incident_status_beq IncidentStatus.detected IncidentStatus.detected = true
incident_status_beq IncidentStatus.ready IncidentStatus.ready = true
incident_status_beq IncidentStatus.blocked IncidentStatus.blocked = true
incident_status_beq (IncidentStatus.other a) (IncidentStatus.other b) = a == b
incident_status_beq _ _ = false

pub incident_status_beq_iff : (a b : IncidentStatus) → (incident_status_beq a b ≡ true) ↔ (a ≡ b)
incident_status_beq_iff (IncidentStatus.other a) (IncidentStatus.other b) =
    ground (arith, string_eq.beq_iff a b)
incident_status_beq_iff a b = ground arith

instance abbrev pub incident_status_eq : Eq IncidentStatus
incident_status_eq = record { beq = incident_status_beq; beq_iff = incident_status_beq_iff }

abbrev pub valid_incident_status : IncidentStatus → Bool
valid_incident_status (IncidentStatus.other s) = false
valid_incident_status _ = true

-- SanitizationStatus
pub data SanitizationStatus : Type 0 where
  pass fail : SanitizationStatus
  other : String → SanitizationStatus

abbrev pub sanitization_status_beq : SanitizationStatus → SanitizationStatus → Bool
sanitization_status_beq SanitizationStatus.pass SanitizationStatus.pass = true
sanitization_status_beq SanitizationStatus.fail SanitizationStatus.fail = true
sanitization_status_beq (SanitizationStatus.other a) (SanitizationStatus.other b) = a == b
sanitization_status_beq _ _ = false

pub sanitization_status_beq_iff :
    (a b : SanitizationStatus) → (sanitization_status_beq a b ≡ true) ↔ (a ≡ b)
sanitization_status_beq_iff (SanitizationStatus.other a) (SanitizationStatus.other b) =
    ground (arith, string_eq.beq_iff a b)
sanitization_status_beq_iff a b = ground arith

instance abbrev pub sanitization_status_eq : Eq SanitizationStatus
sanitization_status_eq = record {
  beq = sanitization_status_beq;
  beq_iff = sanitization_status_beq_iff;
}

abbrev pub valid_sanitization_status : SanitizationStatus → Bool
valid_sanitization_status (SanitizationStatus.other s) = false
valid_sanitization_status _ = true

-- ErrorCode
pub data ErrorCode : Type 0 where
  schema_invalid integrity_mismatch pack_unavailable fixture_missing sanitization_failed
        isolation_violation destination_blocked graph_cycle oracle_unavailable intervention_invalid
        internal_failure :
      ErrorCode
  other : String → ErrorCode

abbrev pub error_code_beq : ErrorCode → ErrorCode → Bool
error_code_beq ErrorCode.schema_invalid ErrorCode.schema_invalid = true
error_code_beq ErrorCode.integrity_mismatch ErrorCode.integrity_mismatch = true
error_code_beq ErrorCode.pack_unavailable ErrorCode.pack_unavailable = true
error_code_beq ErrorCode.fixture_missing ErrorCode.fixture_missing = true
error_code_beq ErrorCode.sanitization_failed ErrorCode.sanitization_failed = true
error_code_beq ErrorCode.isolation_violation ErrorCode.isolation_violation = true
error_code_beq ErrorCode.destination_blocked ErrorCode.destination_blocked = true
error_code_beq ErrorCode.graph_cycle ErrorCode.graph_cycle = true
error_code_beq ErrorCode.oracle_unavailable ErrorCode.oracle_unavailable = true
error_code_beq ErrorCode.intervention_invalid ErrorCode.intervention_invalid = true
error_code_beq ErrorCode.internal_failure ErrorCode.internal_failure = true
error_code_beq (ErrorCode.other a) (ErrorCode.other b) = a == b
error_code_beq _ _ = false

pub error_code_beq_iff : (a b : ErrorCode) → (error_code_beq a b ≡ true) ↔ (a ≡ b)
error_code_beq_iff (ErrorCode.other a) (ErrorCode.other b) = ground (arith, string_eq.beq_iff a b)
error_code_beq_iff a b = ground arith

instance abbrev pub error_code_eq : Eq ErrorCode
error_code_eq = record { beq = error_code_beq; beq_iff = error_code_beq_iff }

abbrev pub valid_error_code : ErrorCode → Bool
valid_error_code (ErrorCode.other s) = false
valid_error_code _ = true
