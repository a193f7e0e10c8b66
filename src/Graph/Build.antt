-- ===== src/Graph/Build.antt =====
-- internal/graph/graph.go: `BuildNodes`.
use Prim.Native.String.{compare}
use text.Mathlib.Text.{is_lt}
use clausa_lens.Prelude.{
  ℕ, zero, suc, ◌+◌, String, Bool, ◌||◌, Option, none, some, List, [], ◌∷◌, length, ◌==◌, ◌!=◌,
  string_eq, int_eq, nat_eq, ℤ, pos, negsuc, ◌<ℤ◌, ◌-ℤ◌, Result, ok, err, ◌>>◌, ◌>>=◌, Dict, insert,
  lookup, delete, select, sort_by, ltb, leb, nat_beq, if◌then◌else◌,
}
use clausa_lens.Contracts.Time.{parse_time, zero_time}
use clausa_lens.Contracts.Text.{contract_version}
use clausa_lens.Contracts.Event.{ExecutionEvent}
use clausa_lens.Contracts.Graph.{
  GraphNode, GraphEdge, Adjacency, neighbours, validate_graph, hard_adjacency,
}
use clausa_lens.Graph.Cycle.{GraphError, graph_cycle, has_hard_cycle}
use clausa_lens.Graph.Order.{require_valid, index_events, zero_event, index_of}

-- `a < b` on texts
abbrev pub text_less : String → String → Bool
text_less a b = is_lt (compare a b)

unfoldable pub tie_less : ExecutionEvent → ExecutionEvent → Bool
tie_less a b =
    if a.component.name != b.component.name
    then text_less a.component.name b.component.name
    else if a.component.replica != b.component.replica
    then text_less a.component.replica b.component.replica
    else if a.sequence != b.sequence
    then a.sequence <ℤ b.sequence
    else text_less a.event_id b.event_id

abbrev time_or_zero : Option ℕ → ℕ
time_or_zero none = zero_time
time_or_zero (some t) = t

-- `occurredAt, _ := time.Parse(…)`: the zero time on an error.
unfoldable pub occurred : ExecutionEvent → ℕ
occurred e = time_or_zero (parse_time e.occurred_at)

abbrev event_or_zero : Option ExecutionEvent → ExecutionEvent
event_or_zero none = zero_event
event_or_zero (some e) = e

-- The events whose id has indegree 0.
unfoldable pub eligible_events : Dict ExecutionEvent → Dict ℤ → List ExecutionEvent
eligible_events by_id [] = []
eligible_events by_id ((id, degree) ∷ rest) =
    let others = eligible_events by_id rest in
    if degree == pos 0 then event_or_zero (lookup id by_id) ∷ others else others

-- The loop's minimum, which starts at the zero time and replaces it by whatever comes.
unfoldable pub earliest_from : ℕ → List ExecutionEvent → ℕ
unfolding occurred
earliest_from earliest [] = earliest
earliest_from earliest (e ∷ es) =
    earliest_from
      (if nat_beq earliest zero_time || ltb (occurred e) earliest then occurred e else earliest) es

abbrev pub tolerance : ℕ
tolerance = 5_000_000

unfoldable pub candidates : List ExecutionEvent → List ExecutionEvent
unfolding earliest_from occurred tie_less
candidates events =
    let cutoff = earliest_from zero_time events + tolerance in
    sort_by tie_less (select (λ e. leb (occurred e) cutoff) events)

unfoldable pub decrement : Dict ℤ → List String → Dict ℤ
decrement indegree [] = indegree
decrement indegree (next ∷ rest) =
    decrement (insert next (index_of indegree next -ℤ pos 1) indegree) rest

unfoldable pub zero_degrees : Dict ExecutionEvent → Dict ℤ
zero_degrees [] = []
zero_degrees ((id, e) ∷ rest) = (id, pos 0) ∷ zero_degrees rest

abbrev increment : ℤ → ℤ
increment i = i -ℤ negsuc 0

unfoldable pub count_edges : Dict ℤ → Adjacency → Dict ℤ
count_edges indegree [] = indegree
count_edges indegree ((from, to) ∷ es) =
    count_edges (insert to (increment (index_of indegree to)) indegree) es

module _ (by_id : Dict ExecutionEvent) (adjacency : Adjacency) where
  -- One round of the loop `for len(result) < len(events)`; `rounds` of them are left.
  unfoldable pub select_nodes : ℕ → ℕ → Dict ℤ → Result GraphError (List GraphNode)
  select_nodes zero index indegree = ok []
  select_nodes (suc rounds) index indegree = elim (candidates (eligible_events by_id indegree)) [
    | [] ↦ err graph_cycle
    | selected ∷ others ↦
        select_nodes rounds (suc index)
          (decrement (delete selected.event_id indegree) (neighbours selected.event_id adjacency))
        >>= λ nodes.
            ok (record { event_id = selected.event_id; timeline_index = pos index } ∷ nodes)
  ]

unfoldable pub nodes_in_order : ℕ → List ExecutionEvent → List GraphNode
nodes_in_order index [] = []
nodes_in_order index (e ∷ es) =
    record { event_id = e.event_id; timeline_index = pos index } ∷ nodes_in_order (suc index) es

unfoldable pub build_nodes :
    List ExecutionEvent → List GraphEdge → Result GraphError (List GraphNode)
build_nodes events edges = do
  by_id ← index_events [] events
  require_valid
      (validate_graph (record {
        schema_version = contract_version;
        graph_id = "validation";
        incident_id = "validation";
        ordering_policy_version = contract_version;
        nodes = nodes_in_order 0 events;
        edges = edges;
      }))
      (has_hard_cycle (nodes_in_order 0 events) edges) "invalid graph constraints"
  select_nodes by_id (hard_adjacency edges) (length events) 0
      (count_edges (zero_degrees by_id) (hard_adjacency edges))
