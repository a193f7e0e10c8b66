-- ===== src/Contracts/Capsule.antt =====
-- internal/contracts/contracts.go: `ReplayCapsule`, its parts and its validator.
use clausa_lens.Prelude.{
  String, Bool, true, ◌&&◌, Option, List, ◌==◌, string_eq, int_eq, nat_eq, list_eq, ℤ, pos, arith,
  ◌≡◌, ◌↔◌, Eq,
}
use clausa_lens.Contracts.IncidentEnums.{SanitizationStatus, sanitization_status_eq}
use clausa_lens.Contracts.Incident.{SystemPackRef}
use clausa_lens.Contracts.Values.{Fields}

pub record CapsuleSource : Type 0 where
  pub incident_id : String
  pub trace_id : String
  pub execution_id : String
  pub capture_environment : String
  pub captured_at : String

-- A nil map is `none`.
pub record Trigger : Type 0 where
  pub request_or_message : Option Fields
  pub sanitized_headers : Option (List (String × String))

pub record StateFixture : Type 0 where
  pub fixture_id : String
  pub kind : String
  pub content_ref : String
  pub content_digest : String
  pub sanitization_status : SanitizationStatus
  pub reset_strategy : String

pub record DependencyFixture : Type 0 where
  pub fixture_id : String
  pub dependency : String
  pub request_match : Option Fields
  pub response : Option Fields
  pub latency_ms : ℤ
  pub failure_mode : String
  pub invocation_limit : ℤ

pub record TimingPolicy : Type 0 where
  pub clock_tolerance_ms : ℤ
  pub timeout_ms : ℤ

pub record ReplayPlan : Type 0 where
  pub entrypoint : String
  pub required_components : List String
  -- A nil slice is `none`.
  pub fixture_load_order : Option (List String)
  pub reset_strategy : String

pub record EffectSummary : Type 0 where
  pub payment_attempt_count : ℤ
  pub ledger_commit_count : ℤ

abbrev pub effect_summary_beq : EffectSummary → EffectSummary → Bool
effect_summary_beq a b =
    a.payment_attempt_count == b.payment_attempt_count
    && a.ledger_commit_count == b.ledger_commit_count

pub effect_summary_beq_iff : (a b : EffectSummary) → (effect_summary_beq a b ≡ true) ↔ (a ≡ b)
effect_summary_beq_iff a b = ground arith

instance abbrev pub effect_summary_eq : Eq EffectSummary
effect_summary_eq = record { beq = effect_summary_beq; beq_iff = effect_summary_beq_iff }

pub record FailureOracleSpec : Type 0 where
  pub id : String
  pub version : String
  pub expected_match : Bool
  pub expected_effect_summary : EffectSummary

pub record InterventionSpec : Type 0 where
  pub kind : String
  pub value_type : String
  pub unit : String
  pub minimum : ℤ
  pub maximum : ℤ

abbrev pub intervention_spec_beq : InterventionSpec → InterventionSpec → Bool
intervention_spec_beq a b =
    a.kind == b.kind
    && a.value_type == b.value_type
    && a.unit == b.unit
    && a.minimum == b.minimum
    && a.maximum == b.maximum

abbrev pub payment_latency : String
payment_latency = "PAYMENT_LATENCY"

abbrev pub milliseconds : String
milliseconds = "ms"

abbrev pub payment_latency_spec : InterventionSpec
payment_latency_spec = record {
  kind = payment_latency;
  value_type = "INTEGER";
  unit = milliseconds;
  minimum = pos 0;
  maximum = pos 5000;
}

pub record SafetyPolicy : Type 0 where
  pub policy_version : String
  pub sanitization_status : SanitizationStatus
  pub blocked_destinations : List String
  pub allowed_destinations : Option (List String)
  pub credential_profile : String

pub record Integrity : Type 0 where
  pub algorithm : String
  pub digest : String

pub record ReplayCapsule : Type 0 where
  pub schema_version : String
  pub capsule_id : String
  pub created_at : String
  pub source : CapsuleSource
  pub system_pack : SystemPackRef
  pub trigger : Trigger
  pub event_ids : List String
  pub graph_id : String
  pub state_fixtures : List StateFixture
  pub dependency_fixtures : List DependencyFixture
  pub timing_policy : TimingPolicy
  pub replay_plan : ReplayPlan
  pub failure_oracle : FailureOracleSpec
  pub allowed_interventions : List InterventionSpec
  pub safety : SafetyPolicy
  pub integrity : Integrity
