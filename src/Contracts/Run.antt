-- ===== src/Contracts/Run.antt =====
-- internal/contracts/contracts.go: `ReplayRun`, its results and `CanTransitionReplayRun`.
use clausa_lens.Prelude.{
  String, Bool, true, false, ◌&&◌, ◌||◌, not, Option, List, is_some, is_blank, ◌==◌, ◌!=◌,
  string_eq, int_eq, ℤ, pos, ◌<ℤ◌, Check, reject, ◌>>◌, ◌≡◌, ◌↔◌, arith, Eq,
}
use clausa_lens.Contracts.RunEnums.{RunType, RunStatus, Outcome, run_status_eq}
use clausa_lens.Contracts.Incident.{RunError, FailureOracleRef}
use clausa_lens.Contracts.Text.{nonempty_strings}
use clausa_lens.Contracts.Isolation.{IsolationEvidence, elements}
use clausa_lens.Contracts.Capsule.{EffectSummary, payment_latency, milliseconds}

pub record Intervention : Type 0 where
  pub kind : String
  pub from : ℤ
  pub to : ℤ
  pub unit : String

abbrev pub intervention_beq : Intervention → Intervention → Bool
intervention_beq a b = a.kind == b.kind && a.from == b.from && a.to == b.to && a.unit == b.unit

pub intervention_beq_iff : (a b : Intervention) → (intervention_beq a b ≡ true) ↔ (a ≡ b)
intervention_beq_iff a b =
    ground (arith, string_eq.beq_iff a.kind b.kind, string_eq.beq_iff a.unit b.unit)

instance abbrev pub intervention_eq : Eq Intervention
intervention_eq = record { beq = intervention_beq; beq_iff = intervention_beq_iff }

pub record OracleResult : Type 0 where
  pub oracle : FailureOracleRef
  pub matched : Bool
  pub effect_summary : EffectSummary
  -- A nil slice is `none`.
  pub required_evidence_event_ids : Option (List String)
  pub explanation : String

pub record ReplayRun : Type 0 where
  pub schema_version : String
  pub run_id : String
  pub execution_id : String
  pub capsule_id : String
  pub capsule_hash : String
  pub run_type : RunType
  pub baseline_run_id : String
  pub intervention : Option Intervention
  pub trial_number : ℤ
  pub status : RunStatus
  pub outcome : Outcome
  pub started_at : String
  pub completed_at : String
  pub observed_event_ids : List String
  pub effect_summary : Option EffectSummary
  pub failure_oracle_result : Option OracleResult
  pub isolation_evidence : Option IsolationEvidence
  pub error : Option RunError

unfoldable pub validate_intervention : Intervention → Check
validate_intervention i =
    reject
      (i.kind != payment_latency
        || i.unit != milliseconds
        || i.from <ℤ pos 0
        || pos 5000 <ℤ i.from
        || i.to <ℤ pos 0
        || pos 5000 <ℤ i.to
        || i.from == i.to)
      "invalid intervention"

unfoldable pub validate_effect_summary : EffectSummary → Check
validate_effect_summary e =
    reject (e.payment_attempt_count <ℤ pos 0 || e.ledger_commit_count <ℤ pos 0)
      "effect counts must be non-negative"

unfoldable pub validate_oracle_result : OracleResult → Check
unfolding validate_effect_summary
validate_oracle_result o = do
  reject
      (o.oracle.id == ""
        || o.oracle.version == ""
        || not (is_some o.required_evidence_event_ids)
        || not (nonempty_strings (elements o.required_evidence_event_ids))
        || is_blank o.explanation)
      "invalid oracle result"
  validate_effect_summary o.effect_summary

unfoldable pub can_transition : RunStatus → RunStatus → Bool
can_transition RunStatus.created to = to == RunStatus.validating
can_transition RunStatus.validating to =
    to == RunStatus.running || to == RunStatus.blocked || to == RunStatus.failed
can_transition RunStatus.running to =
    to == RunStatus.completed || to == RunStatus.blocked || to == RunStatus.failed
can_transition _ to = false

unfoldable pub is_terminal : RunStatus → Bool
is_terminal status =
    status == RunStatus.completed || status == RunStatus.failed || status == RunStatus.blocked
