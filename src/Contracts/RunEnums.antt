-- ===== src/Contracts/RunEnums.antt =====
-- internal/contracts/contracts.go: the enumerations of a replay run.
-- An absent `outcome` is the empty text, `unset`.
use clausa_lens.Prelude.{String, ◌≡◌, Bool, true, false, arith, ◌↔◌, Eq, ◌==◌, string_eq}

-- RunType
pub data RunType : Type 0 where
  baseline what_if : RunType
  other : String → RunType

abbrev pub run_type_beq : RunType → RunType → Bool
run_type_beq RunType.baseline RunType.baseline = true
run_type_beq RunType.what_if RunType.what_if = true
run_type_beq (RunType.other a) (RunType.other b) = a == b
run_type_beq _ _ = false

pub run_type_beq_iff : (a b : RunType) → (run_type_beq a b ≡ true) ↔ (a ≡ b)
run_type_beq_iff (RunType.other a) (RunType.other b) = ground (arith, string_eq.beq_iff a b)
run_type_beq_iff a b = ground arith

instance abbrev pub run_type_eq : Eq RunType
run_type_eq = record { beq = run_type_beq; beq_iff = run_type_beq_iff }

-- ReplayRunStatus
pub data RunStatus : Type 0 where
  created validating running completed failed blocked : RunStatus
  other : String → RunStatus

abbrev pub run_status_beq : RunStatus → RunStatus → Bool
run_status_beq RunStatus.created RunStatus.created = true
run_status_beq RunStatus.validating RunStatus.validating = true
run_status_beq RunStatus.running RunStatus.running = true
run_status_beq RunStatus.completed RunStatus.completed = true
run_status_beq RunStatus.failed RunStatus.failed = true
run_status_beq RunStatus.blocked RunStatus.blocked = true
run_status_beq (RunStatus.other a) (RunStatus.other b) = a == b
run_status_beq _ _ = false

pub run_status_beq_iff : (a b : RunStatus) → (run_status_beq a b ≡ true) ↔ (a ≡ b)
run_status_beq_iff (RunStatus.other a) (RunStatus.other b) = ground (arith, string_eq.beq_iff a b)
run_status_beq_iff a b = ground arith

instance abbrev pub run_status_eq : Eq RunStatus
run_status_eq = record { beq = run_status_beq; beq_iff = run_status_beq_iff }

abbrev pub valid_run_status : RunStatus → Bool
valid_run_status (RunStatus.other s) = false
valid_run_status _ = true

-- ReplayOutcome
pub data Outcome : Type 0 where
  unset reproduced not_reproduced mitigated unchanged inconclusive : Outcome
  other : String → Outcome

abbrev pub outcome_beq : Outcome → Outcome → Bool
outcome_beq Outcome.unset Outcome.unset = true
outcome_beq Outcome.reproduced Outcome.reproduced = true
outcome_beq Outcome.not_reproduced Outcome.not_reproduced = true
outcome_beq Outcome.mitigated Outcome.mitigated = true
outcome_beq Outcome.unchanged Outcome.unchanged = true
outcome_beq Outcome.inconclusive Outcome.inconclusive = true
outcome_beq (Outcome.other a) (Outcome.other b) = a == b
outcome_beq _ _ = false

pub outcome_beq_iff : (a b : Outcome) → (outcome_beq a b ≡ true) ↔ (a ≡ b)
outcome_beq_iff (Outcome.other a) (Outcome.other b) = ground (arith, string_eq.beq_iff a b)
outcome_beq_iff a b = ground arith

instance abbrev pub outcome_eq : Eq Outcome
outcome_eq = record { beq = outcome_beq; beq_iff = outcome_beq_iff }

-- Verdict
pub data Verdict : Type 0 where
  pass fail : Verdict
  other : String → Verdict

abbrev pub verdict_beq : Verdict → Verdict → Bool
verdict_beq Verdict.pass Verdict.pass = true
verdict_beq Verdict.fail Verdict.fail = true
verdict_beq (Verdict.other a) (Verdict.other b) = a == b
verdict_beq _ _ = false

pub verdict_beq_iff : (a b : Verdict) → (verdict_beq a b ≡ true) ↔ (a ≡ b)
verdict_beq_iff (Verdict.other a) (Verdict.other b) = ground (arith, string_eq.beq_iff a b)
verdict_beq_iff a b = ground arith

instance abbrev pub verdict_eq : Eq Verdict
verdict_eq = record { beq = verdict_beq; beq_iff = verdict_beq_iff }

abbrev pub valid_verdict : Verdict → Bool
valid_verdict (Verdict.other s) = false
valid_verdict _ = true

-- DependencyInteractionResult
pub data InteractionResult : Type 0 where
  simulated allowed denied : InteractionResult
  other : String → InteractionResult

abbrev pub interaction_result_beq : InteractionResult → InteractionResult → Bool
interaction_result_beq InteractionResult.simulated InteractionResult.simulated = true
interaction_result_beq InteractionResult.allowed InteractionResult.allowed = true
interaction_result_beq InteractionResult.denied InteractionResult.denied = true
interaction_result_beq (InteractionResult.other a) (InteractionResult.other b) = a == b
interaction_result_beq _ _ = false

pub interaction_result_beq_iff :
    (a b : InteractionResult) → (interaction_result_beq a b ≡ true) ↔ (a ≡ b)
interaction_result_beq_iff (InteractionResult.other a) (InteractionResult.other b) =
    ground (arith, string_eq.beq_iff a b)
interaction_result_beq_iff a b = ground arith

instance abbrev pub interaction_result_eq : Eq InteractionResult
interaction_result_eq = record {
  beq = interaction_result_beq;
  beq_iff = interaction_result_beq_iff;
}

abbrev pub valid_interaction_result : InteractionResult → Bool
valid_interaction_result (InteractionResult.other s) = false
valid_interaction_result _ = true
