-- ===== src/Contracts/Diff.antt =====
-- internal/contracts/contracts.go: `ReplayDiff`, its parts and the requests that create runs and
-- diffs.
use clausa_lens.Prelude.{String, Option, List, ℤ}
use clausa_lens.Contracts.Event.{ExecutionEvent}
use clausa_lens.Contracts.Graph.{ExecutionGraph}
use clausa_lens.Contracts.RunEnums.{RunType}
use clausa_lens.Contracts.Capsule.{EffectSummary}
use clausa_lens.Contracts.Values.{Value}
use clausa_lens.Contracts.Run.{Intervention, OracleResult, ReplayRun}

pub record EffectDelta : Type 0 where
  pub payment_attempt_count : ℤ
  pub ledger_commit_count : ℤ

pub record EventAlignment : Type 0 where
  pub baseline_event_id : String
  pub comparison_event_id : String

pub record EventChange : Type 0 where
  pub baseline_event_id : String
  pub comparison_event_id : String
  pub field_name : String
  pub baseline_value : Value
  pub comparison_value : Value

pub record FirstDivergence : Type 0 where
  pub baseline_event_id : String
  pub comparison_event_id : String
  pub rule : String
  pub baseline_value : Value
  pub comparison_value : Value
  pub baseline_timeline_index : ℤ
  pub comparison_timeline_index : ℤ

-- A nil slice is `none`.
pub record ReplayDiff : Type 0 where
  pub schema_version : String
  pub diff_id : String
  pub baseline_run_id : String
  pub comparison_run_id : String
  pub alignment_version : String
  pub intervention : Intervention
  pub baseline_oracle_result : OracleResult
  pub comparison_oracle_result : OracleResult
  pub matched_events : Option (List EventAlignment)
  pub added_event_ids : Option (List String)
  pub removed_event_ids : Option (List String)
  pub changed_events : Option (List EventChange)
  pub first_meaningful_divergence : Option FirstDivergence
  pub baseline_effect_summary : EffectSummary
  pub comparison_effect_summary : EffectSummary
  pub effect_delta : EffectDelta
  pub evidence_summary : String
  pub limitations : Option (List String)

pub record ReplayExecution : Type 0 where
  pub run : ReplayRun
  pub events : List ExecutionEvent
  pub graph : ExecutionGraph

pub record CreateRunRequest : Type 0 where
  pub run_type : RunType
  pub baseline_run_id : String
  pub intervention : Option Intervention

pub record CreateDiffRequest : Type 0 where
  pub baseline_run_id : String
  pub comparison_run_id : String
