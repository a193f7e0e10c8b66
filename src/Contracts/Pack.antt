-- ===== src/Contracts/Pack.antt =====
-- internal/contracts/contracts.go: `SystemPack`, the interface of a System Pack, and what it exchanges.
-- The context is no argument, since no pack of the repository reads it; `Labels` is for the interface.
use clausa_lens.Prelude.{String, List, Result}
use clausa_lens.Contracts.Event.{ExecutionEvent}
use clausa_lens.Contracts.Incident.{Incident, SystemPackRef, ValidationIssue}
use clausa_lens.Contracts.Capsule.{
  StateFixture, DependencyFixture, ReplayPlan, ReplayCapsule, InterventionSpec,
}
use clausa_lens.Contracts.Run.{Intervention, OracleResult}
use clausa_lens.Contracts.Diff.{ReplayDiff, ReplayExecution}

-- The payload is the text of its bytes.
pub record RawEvidence : Type 0 where
  pub source : String
  pub content_type : String
  pub received_at : String
  pub payload : String

pub record FixtureSet : Type 0 where
  pub state_fixtures : List StateFixture
  pub dependency_fixtures : List DependencyFixture

pub record SystemPack : Type 0 where
  pub descriptor : SystemPackRef
  pub normalize : RawEvidence → Result String (List ExecutionEvent)
  pub detect_incident : List ExecutionEvent → Result String OracleResult
  pub extract_fixtures : Incident → List ExecutionEvent → Result String FixtureSet
  pub build_replay_plan : Incident → FixtureSet → Result String ReplayPlan
  pub validate_capsule : ReplayCapsule → List ValidationIssue
  pub allowed_interventions : List InterventionSpec
  pub apply_intervention : ReplayPlan → Intervention → Result String ReplayPlan
  pub compare : String → ReplayExecution → ReplayExecution → Result String ReplayDiff
  pub evaluate_outcome : ReplayExecution → Result String OracleResult
