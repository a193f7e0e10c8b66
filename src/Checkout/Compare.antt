-- ===== src/Checkout/Compare.antt =====
-- internal/systempack/checkout/compare.go: `Compare` and its structural divergence.
use clausa_lens.Prelude.{
  ℕ, suc, String, ◌&&◌, ◌||◌, not, Option, none, some, List, [], ◌∷◌, ◌==◌, ◌!=◌, string_eq, pos,
  Result, Check, ok, err, ◌>>=◌, if◌then◌else◌,
}
use clausa_lens.Contracts.EventEnums.{EventType, event_type_eq}
use clausa_lens.Contracts.Values.{str_val}
use clausa_lens.Contracts.Text.{contract_version}
use clausa_lens.Contracts.Event.{ExecutionEvent}
use clausa_lens.Contracts.Graph.{seen_text}
use clausa_lens.Contracts.Run.{Intervention, OracleResult}
use clausa_lens.Contracts.Diff.{ReplayDiff, ReplayExecution, FirstDivergence}
use clausa_lens.Contracts.DiffCheck.{validate_diff}
use clausa_lens.Checkout.Oracle.{evaluate}
use clausa_lens.Checkout.Align.{EventSets, align}
use clausa_lens.Differential.Divergence.{first_divergence_from, effect_delta_of, counts_text}

-- The first payment COMPLETE with its index, or index 0 and no id.
unfoldable pub payment_complete : ℕ → List ExecutionEvent → ℕ × String
payment_complete j [] = (0, "")
payment_complete j (c ∷ cs) =
    let later = payment_complete (suc j) cs in
    if c.component.name == "payment" && c.event_type == EventType.complete
    then (j, c.event_id)
    else later

-- The first TIMEOUT among the removed events.
unfoldable pub removed_timeout :
    ℕ → List String → List ExecutionEvent → List ExecutionEvent → Option FirstDivergence
removed_timeout i removed comparison [] = none
removed_timeout i removed comparison (e ∷ es) =
    let later = removed_timeout (suc i) removed comparison es in
    let (index, id) = payment_complete 0 comparison in
    if e.event_type != EventType.timeout || not (seen_text e.event_id removed)
    then later
    else some (record {
      baseline_event_id = e.event_id;
      comparison_event_id = id;
      rule = "PAYMENT_COMPLETES_BEFORE_TIMEOUT";
      baseline_value = str_val "TIMEOUT";
      comparison_value = str_val "SUCCESS";
      baseline_timeline_index = pos i;
      comparison_timeline_index = pos index;
    })

abbrev or_else : Option FirstDivergence → Option FirstDivergence → Option FirstDivergence
or_else (some d) later = some d
or_else none later = later

unfoldable pub first_meaningful_divergence :
    List ExecutionEvent → List ExecutionEvent → EventSets → Option FirstDivergence
unfolding removed_timeout
first_meaningful_divergence baseline comparison sets =
    or_else (first_divergence_from baseline comparison sets.changed)
      (removed_timeout 0 sets.removed comparison baseline)

-- The zero `Intervention`.
abbrev intervention_or_zero : Option Intervention → Intervention
intervention_or_zero none = record { kind = ""; from = pos 0; to = pos 0; unit = "" }
intervention_or_zero (some i) = i

unfoldable pub compared_diff :
    String
    → ReplayExecution
    → ReplayExecution
    → OracleResult
    → OracleResult
    → EventSets
    → ReplayDiff
compared_diff diff_id b c before after sets = record {
  schema_version = contract_version;
  diff_id = diff_id;
  baseline_run_id = b.run.run_id;
  comparison_run_id = c.run.run_id;
  alignment_version = contract_version;
  intervention = intervention_or_zero c.run.intervention;
  baseline_oracle_result = before;
  comparison_oracle_result = after;
  matched_events = some sets.matched;
  added_event_ids = some sets.added;
  removed_event_ids = some sets.removed;
  changed_events = some sets.changed;
  first_meaningful_divergence = first_meaningful_divergence b.events c.events sets;
  baseline_effect_summary = before.effect_summary;
  comparison_effect_summary = after.effect_summary;
  effect_delta = effect_delta_of before.effect_summary after.effect_summary;
  evidence_summary =
      counts_text "checkout_duplicate_effect: " before.effect_summary after.effect_summary sets;
  limitations = some ("Applies to checkout_duplicate_effect pack v1.0.0 fixtures." ∷ []);
}

abbrev valid_diff : ReplayDiff → Check → Result String ReplayDiff
valid_diff d (ok tt) = ok d
valid_diff d (err e) = err e

unfoldable pub compare : String → ReplayExecution → ReplayExecution → Result String ReplayDiff
unfolding compared_diff
compare diff_id b c = do
  before ← evaluate b.events
  after ← evaluate c.events
  let diff = compared_diff diff_id b c before after (align b.events c.events)
  valid_diff diff (validate_diff diff)
