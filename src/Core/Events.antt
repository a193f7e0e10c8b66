-- ===== src/Core/Events.antt =====
-- internal/core/store.go: ingestion and the queries of events, and the graph of a run.
use clausa_lens.Prelude.{
  ℕ, suc, String, Bool, Option, none, some, List, [], ◌∷◌, select, ◌==◌, ◌!=◌, string_eq, int_eq,
  nat_eq, ◌<ℤ◌, Result, ok, err, reject, ◌>>◌, ◌>>=◌, insert, has, values, sort_by, ltb, ◌+++◌,
  decimal_text, if◌then◌else◌,
}
use clausa_lens.Contracts.EventEnums.{GraphEdgeType}
use clausa_lens.Contracts.Time.{parse_time}
use clausa_lens.Contracts.Text.{contract_version}
use clausa_lens.Contracts.Event.{ExecutionEvent, validate_event}
use clausa_lens.Contracts.Graph.{GraphEdge, ExecutionGraph}
use clausa_lens.Contracts.Run.{ReplayRun}
use clausa_lens.Graph.Cycle.{GraphError}
use clausa_lens.Graph.Build.{text_less, build_nodes}
use clausa_lens.Core.Store.{Store, StoreError, internal, conflict, invalid_event}

-- `return err` of the validator.
abbrev pub as_invalid_event : Result String (Unit {0}) → Result StoreError (Unit {0})
as_invalid_event (ok tt) = ok tt
as_invalid_event (err e) = err (invalid_event e)

unfoldable pub ingest_event : Bool → ExecutionEvent → Store → Result StoreError Store
ingest_event ctx e s = do
  reject ctx internal
  as_invalid_event (validate_event e)
  reject (has e.event_id s.events) conflict
  ok (record s { events = insert e.event_id e s.events })

abbrev by_sequence : ExecutionEvent → ExecutionEvent → Bool
by_sequence a b =
    if a.sequence != b.sequence then a.sequence <ℤ b.sequence else text_less a.event_id b.event_id

abbrev by_time : Option ℕ → Option ℕ → Bool → Bool
by_time none _ rest = rest
by_time (some s) none rest = rest
by_time (some s) (some t) rest = if s != t then ltb s t else rest

-- The `less` of `stableOrder`: by time where both parse and differ, then sequence, then id.
unfoldable pub event_less : ExecutionEvent → ExecutionEvent → Bool
event_less a b = by_time (parse_time a.occurred_at) (parse_time b.occurred_at) (by_sequence a b)

unfoldable pub stable_order : List ExecutionEvent → List ExecutionEvent
stable_order events = sort_by event_less events

unfoldable pub events_for_execution :
    Bool → String → Store → Result StoreError (List ExecutionEvent)
events_for_execution ctx execution_id s =
    reject ctx internal
    >> ok (stable_order (select (λ e. e.execution_id == execution_id) (values s.events)))

unfoldable pub events_for_run : Bool → ReplayRun → Store → Result StoreError (List ExecutionEvent)
events_for_run ctx run s =
    reject ctx internal
    >> ok (stable_order (select (λ e. e.replay_run_id == run.run_id) (values s.events)))

-- The loop over the events, by their index.
unfoldable pub edges_from : ℕ → List ExecutionEvent → List GraphEdge
edges_from i [] = []
edges_from i (e ∷ es) =
    let rest = edges_from (suc i) es in
    if e.parent_event_id == ""
    then rest
    else record {
      edge_id = "edge-" +++ decimal_text i;
      from_event_id = e.parent_event_id;
      to_event_id = e.event_id;
      kind = GraphEdgeType.parent_child;
    }
      ∷ rest

unfoldable pub parent_child_edges : List ExecutionEvent → List GraphEdge
parent_child_edges events = edges_from 0 events

unfoldable pub build_run_graph : String → List ExecutionEvent → Result GraphError ExecutionGraph
build_run_graph run_id events = build_nodes events (parent_child_edges events) >>= λ nodes.
    ok (record {
      schema_version = contract_version;
      graph_id = "graph-run-" +++ run_id;
      incident_id = run_id;
      ordering_policy_version = contract_version;
      nodes = nodes;
      edges = parent_child_edges events;
    })

-- The two ways in which `GraphsForRun` fails.
pub data RunGraphError : Type 0 where
  store_failed : StoreError → RunGraphError
  graph_failed : GraphError → RunGraphError

graph_result : Result GraphError ExecutionGraph → Result RunGraphError ExecutionGraph
graph_result (ok g) = ok g
graph_result (err e) = err (graph_failed e)

run_graph : String → Result StoreError (List ExecutionEvent) → Result RunGraphError ExecutionGraph
unfolding graph_result
run_graph run_id (ok events) = graph_result (build_run_graph run_id events)
run_graph run_id (err e) = err (store_failed e)

unfoldable pub graphs_for_run : Bool → ReplayRun → Store → Result RunGraphError ExecutionGraph
unfolding run_graph
graphs_for_run ctx run s = run_graph run.run_id (events_for_run ctx run s)
