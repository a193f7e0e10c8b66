-- ===== src/Differential/Build.antt =====
-- internal/differential/differential.go: `Build`, over the store and the pack that it is given.
-- Its interfaces `Store`, `Alignment` and `DiffBuilder` are the fields of `Sources`; the read of a
-- nil pointer is the error `nil_pointer`.
use clausa_lens.Prelude.{
  String, ◌||◌, not, Option, none, some, List, [], ◌∷◌, ◌==◌, ◌!=◌, string_eq, pos, Result, ok, err,
  reject, ◌>>◌, ◌>>=◌, is_some, if◌then◌else◌,
}
use clausa_lens.Contracts.RunEnums.{
  RunType, RunStatus, Outcome, run_type_eq, run_status_eq, outcome_eq,
}
use clausa_lens.Contracts.Text.{contract_version}
use clausa_lens.Contracts.Event.{ExecutionEvent}
use clausa_lens.Contracts.Graph.{ExecutionGraph}
use clausa_lens.Contracts.Capsule.{EffectSummary}
use clausa_lens.Contracts.Run.{ReplayRun}
use clausa_lens.Contracts.Diff.{ReplayDiff, ReplayExecution, FirstDivergence}
use clausa_lens.Contracts.DiffCheck.{validate_diff}
use clausa_lens.Graph.Cycle.{GraphError}
use clausa_lens.Graph.Order.{order}
use clausa_lens.Checkout.Align.{EventSets}
use clausa_lens.Core.Store.{StoreError}
use clausa_lens.Differential.Divergence.{first_divergence_from, effect_delta_of, counts_text}

pub data DiffError : Type 0 where
  prerequisites : String → DiffError
  store_error : StoreError → DiffError
  order_error : GraphError → DiffError
  pack_error : String → DiffError
  invalid_diff : String → DiffError
  nil_pointer : DiffError

-- What `Build` calls. A pack that is no `DiffBuilder` has no `compare`.
pub record Sources : Type 0 where
  pub get_run : String → Result DiffError ReplayRun
  pub events_for_run : ReplayRun → Result DiffError (List ExecutionEvent)
  pub graphs_for_run : ReplayRun → Result DiffError ExecutionGraph
  pub align : ReplayExecution → ReplayExecution → Result String EventSets
  pub compare : Option (ReplayExecution → ReplayExecution → Result String ReplayDiff)

unfoldable pub verify_prerequisites : ReplayRun → ReplayRun → Result DiffError (Unit {0})
verify_prerequisites baseline comparison = do
  reject (baseline.status != RunStatus.completed) (prerequisites "baseline must be COMPLETED")
  reject (baseline.outcome != Outcome.reproduced)
      (prerequisites "baseline outcome must be REPRODUCED")
  reject (comparison.status != RunStatus.completed) (prerequisites "comparison must be COMPLETED")
  reject (comparison.run_type != RunType.what_if) (prerequisites "comparison must be a WHAT_IF run")
  reject (comparison.baseline_run_id != baseline.run_id)
      (prerequisites "comparison baseline_run_id must match the baseline run")
  reject (comparison.capsule_hash != baseline.capsule_hash)
      (prerequisites "compared runs must share the same capsule hash")
  reject (not (is_some comparison.intervention))
      (prerequisites "comparison must record exactly one intervention")

abbrev deref : {A : Type 0} → Option A → Result DiffError A
deref none = err nil_pointer
deref (some a) = ok a

abbrev pub no_effects : EffectSummary
no_effects = record { payment_attempt_count = pos 0; ledger_commit_count = pos 0 }

abbrev pub summary_of : Option EffectSummary → EffectSummary
summary_of none = no_effects
summary_of (some s) = s

abbrev ordered_by : List ExecutionEvent → ExecutionGraph → Result DiffError (List ExecutionEvent)
ordered_by events graph = elim (order events graph) [ ok es ↦ ok es | err e ↦ err (order_error e) ]

abbrev pub by_pack : {A : Type 0} → Result String A → Result DiffError A
by_pack (ok a) = ok a
by_pack (err e) = err (pack_error e)

abbrev pub valid_or_fail : ReplayDiff → Result String (Unit {0}) → Result DiffError ReplayDiff
valid_or_fail d (ok tt) = ok d
valid_or_fail d (err e) = err (invalid_diff e)

abbrev compared : Result String ReplayDiff → Option FirstDivergence
compared (ok d) = d.first_meaningful_divergence
compared (err e) = none

abbrev or_compare :
    Option FirstDivergence
    → Option (ReplayExecution → ReplayExecution → Result String ReplayDiff)
    → ReplayExecution
    → ReplayExecution
    → Option FirstDivergence
or_compare (some d) builder b c = some d
or_compare none none b c = none
or_compare none (some compare) b c = compared (compare b c)

-- `loadOrderedEvents`, as the execution that it is put into.
unfoldable pub load_execution : Sources → ReplayRun → Result DiffError ReplayExecution
load_execution s run = do
  raw ← s.events_for_run run
  graph ← s.graphs_for_run run
  ordered ← ordered_by raw graph
  ok (record { run = run; events = ordered; graph = graph })

unfoldable pub divergence_between :
    Sources → ReplayExecution → ReplayExecution → EventSets → Option FirstDivergence
divergence_between s b c sets =
    if c.run.outcome != Outcome.inconclusive
    then or_compare (first_divergence_from b.events c.events sets.changed) s.compare b c
    else none

unfoldable pub assemble :
    Sources → String → ReplayExecution → ReplayExecution → EventSets → Result DiffError ReplayDiff
unfolding divergence_between
assemble s diff_id b c sets = do
  intervention ← deref c.run.intervention
  baseline_oracle ← deref b.run.failure_oracle_result
  comparison_oracle ← deref c.run.failure_oracle_result
  let before = summary_of b.run.effect_summary
  let after = summary_of c.run.effect_summary
  ok (record {
    schema_version = contract_version;
    diff_id = diff_id;
    baseline_run_id = b.run.run_id;
    comparison_run_id = c.run.run_id;
    alignment_version = contract_version;
    intervention = intervention;
    baseline_oracle_result = baseline_oracle;
    comparison_oracle_result = comparison_oracle;
    matched_events = some sets.matched;
    added_event_ids = some sets.added;
    removed_event_ids = some sets.removed;
    changed_events = some sets.changed;
    first_meaningful_divergence = divergence_between s b c sets;
    baseline_effect_summary = before;
    comparison_effect_summary = after;
    effect_delta = effect_delta_of before after;
    evidence_summary =
        counts_text "What-if reconstruction changed the event stream: " before after sets;
    limitations = some ("Applies to differential analyzer fixtures." ∷ []);
  })

-- `Build` once the two runs' events stand in order.
unfoldable pub diff_of :
    Sources → String → ReplayExecution → ReplayExecution → Result DiffError ReplayDiff
diff_of s diff_id b c = do
  sets ← by_pack (s.align b c)
  diff ← assemble s diff_id b c sets
  valid_or_fail diff (validate_diff diff)

-- `Build` once the two runs are read.
unfoldable pub compare_runs : Sources → String → ReplayRun → ReplayRun → Result DiffError ReplayDiff
unfolding diff_of
compare_runs s diff_id baseline comparison = do
  reject (baseline.run_type != RunType.baseline) (prerequisites "baseline must be a BASELINE run")
  verify_prerequisites baseline comparison
  b ← load_execution s baseline
  c ← load_execution s comparison
  diff_of s diff_id b c

unfoldable pub build : Sources → String → String → String → Result DiffError ReplayDiff
unfolding compare_runs
build s diff_id baseline_id comparison_id = do
  reject (diff_id == "" || baseline_id == "" || comparison_id == "" || baseline_id == comparison_id)
      (prerequisites "diff ids must be distinct and non-empty")
  baseline ← s.get_run baseline_id
  comparison ← s.get_run comparison_id
  compare_runs s diff_id baseline comparison
