-- ===== src/Examples/Diffs.antt =====
-- A diff of a baseline with a what-if run, as `Build` makes it.
use clausa_lens.Prelude.{
  false, none, some, List, [], ◌∷◌, pos, negsuc, ok, err, ◌≡◌, refl, is_blank, lookup, insert,
  sort_by, insert_by, decimal_text, if◌then◌else◌, ◌==◌, string_eq,
}
use clausa_lens.Contracts.EventEnums.{EventType}
use clausa_lens.Contracts.RunEnums.{RunStatus, Outcome}
use clausa_lens.Contracts.Time.{valid_utc_time, parse_time}
use clausa_lens.Contracts.Event.{ExecutionEvent, validate_event}
use clausa_lens.Contracts.Run.{
  ReplayRun, OracleResult, validate_intervention, validate_oracle_result, validate_effect_summary,
}
use clausa_lens.Contracts.Text.{nonempty_strings}
use clausa_lens.Contracts.Graph.{
  validate_graph, check_nodes, check_edges, search_cycle, visit_any, visit, mark_of, neighbours,
  hard_adjacency,
}
use clausa_lens.Contracts.Diff.{ReplayDiff}
use clausa_lens.Contracts.DiffCheck.{
  validate_diff, check_diff_fields, check_diff_parts, check_effect_delta, check_diff_arrays,
  check_alignment, check_change, check_divergence,
}
use clausa_lens.Graph.Order.{
  order, index_events, place_nodes, set, check_hard_edges, index_of, earlier, require_valid,
}
use clausa_lens.Graph.Indices.{Indexed, Covers, build_nodes-Indexed}
use clausa_lens.Graph.Build.{
  build_nodes, select_nodes, candidates, eligible_events, decrement, count_edges, zero_degrees,
  nodes_in_order, earliest_from, occurred, tie_less,
}
use clausa_lens.Contracts.Time.{zero_time}
use clausa_lens.Contracts.Graph.{GraphNode}
use clausa_lens.Prelude.{length, delete}
use clausa_lens.Graph.Sequence.{Ordered, order-Ordered}
use clausa_lens.Checkout.Align.{EventSets}
use clausa_lens.Differential.Divergence.{
  index_from, index_by_event_id, candidates_of, candidate_less, first_divergence_from, signed_text,
  effect_delta_of, counts_text,
}
use clausa_lens.Core.Store.{not_found}
use clausa_lens.Differential.Build.{
  Sources, store_error, build, compare_runs, diff_of, load_execution, assemble, divergence_between,
  verify_prerequisites,
}
use clausa_lens.Differential.Verified.{Built, build-Built}
use clausa_lens.Examples.Data.{
  completed, what_if, noon, duplicated, two_effects, isolated, graph, event, faster,
}

abbrev pub single : OracleResult
single = record duplicated {
  matched = false;
  effect_summary = record { payment_attempt_count = pos 1; ledger_commit_count = pos 1 };
}

abbrev pub mitigated : ReplayRun
mitigated = record what_if {
  status = RunStatus.completed;
  outcome = Outcome.mitigated;
  started_at = noon;
  completed_at = noon;
  effect_summary = some single.effect_summary;
  failure_oracle_result = some single;
  isolation_evidence = some isolated;
}

abbrev pub two_events : List ExecutionEvent
two_events = event "ev-1" EventType.timeout ∷ event "ev-2" EventType.retry ∷ []

abbrev sets : EventSets
sets = record {
  matched =
      record { baseline_event_id = "ev-1"; comparison_event_id = "ev-1" }
      ∷ record { baseline_event_id = "ev-2"; comparison_event_id = "ev-2" }
      ∷ [];
  added = [];
  removed = [];
  changed = [];
}

abbrev sources : Sources
sources = record {
  get_run = λ id.
      if id == "run-1"
      then ok completed
      else if id == "run-2"
      then ok mitigated
      else err (store_error not_found);
  events_for_run = λ r. ok two_events;
  graphs_for_run = λ r. ok graph;
  align = λ b c. ok sets;
  compare = none;
}

abbrev pub diff : ReplayDiff
diff = record {
  schema_version = "1.0";
  diff_id = "diff-1";
  baseline_run_id = "run-1";
  comparison_run_id = "run-2";
  alignment_version = "1.0";
  intervention = faster;
  baseline_oracle_result = duplicated;
  comparison_oracle_result = single;
  matched_events = some sets.matched;
  added_event_ids = some [];
  removed_event_ids = some [];
  changed_events = some [];
  first_meaningful_divergence = none;
  baseline_effect_summary = two_effects;
  comparison_effect_summary = single.effect_summary;
  effect_delta = record { payment_attempt_count = negsuc 0; ledger_commit_count = negsuc 0 };
  evidence_summary =
      "What-if reconstruction changed the event stream: 2 matched, 0 added, 0 removed, 0 changed. Effect delta -1 payment attempts, -1 ledger commits.";
  limitations = some ("Applies to differential analyzer fixtures." ∷ []);
}

abbrev ordered_nodes : List GraphNode
ordered_nodes =
    record { event_id = "ev-1"; timeline_index = pos 0 }
    ∷ record { event_id = "ev-2"; timeline_index = pos 1 }
    ∷ []

orders : order two_events graph ≡ ok two_events
unfolding order validate_graph check_nodes check_edges search_cycle visit_any visit mark_of
    neighbours lookup hard_adjacency insert index_events validate_event valid_utc_time parse_time
    place_nodes set check_hard_edges index_of sort_by insert_by earlier require_valid
orders = refl

built : build sources "diff-1" "run-1" "run-2" ≡ ok diff
unfolding build compare_runs load_execution diff_of verify_prerequisites assemble divergence_between
    order validate_graph check_nodes check_edges search_cycle visit_any visit mark_of neighbours
    lookup hard_adjacency insert index_events validate_event valid_utc_time parse_time place_nodes
    set check_hard_edges index_of sort_by insert_by earlier require_valid validate_diff
    check_diff_fields check_diff_parts check_effect_delta check_diff_arrays check_alignment
    check_change check_divergence index_from index_by_event_id candidates_of candidate_less
    first_divergence_from signed_text effect_delta_of counts_text validate_intervention
    validate_oracle_result validate_effect_summary nonempty_strings is_blank decimal_text
built = refl

order-Ordered_example : Ordered graph two_events
order-Ordered_example = order-Ordered two_events graph two_events orders

build-Built_example : Built sources "diff-1" "run-1" "run-2" diff
build-Built_example = build-Built sources "diff-1" "run-1" "run-2" diff built

builds : build_nodes two_events graph.edges ≡ ok ordered_nodes
unfolding build_nodes select_nodes candidates eligible_events decrement count_edges zero_degrees
    nodes_in_order validate_graph check_nodes check_edges search_cycle visit_any visit mark_of
    neighbours lookup hard_adjacency insert delete index_events validate_event valid_utc_time
    parse_time index_of sort_by insert_by require_valid earliest_from occurred tie_less zero_time
builds = refl

build_nodes-Indexed_example :
    (length ordered_nodes ≡ length two_events)
    × Indexed 0 ordered_nodes
    × Covers two_events ordered_nodes
build_nodes-Indexed_example = build_nodes-Indexed two_events graph.edges ordered_nodes builds
