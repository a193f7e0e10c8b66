-- ===== src/Graph/Order.antt =====
-- internal/graph/graph.go: `Order`.
use clausa_lens.Prelude.{
  ℕ, zero, suc, String, Bool, false, ◌&&◌, not, Option, none, some, List, [], ◌∷◌, length, ◌!=◌,
  string_eq, int_eq, nat_eq, ℤ, pos, ◌<ℤ◌, Result, ok, err, reject, ◌>>◌, ◌>>=◌, Dict, insert,
  lookup, has, sort_by, if◌then◌else◌,
}
use clausa_lens.Contracts.EventEnums.{OperationKind, EventType, EventStatus}
use clausa_lens.Contracts.Event.{ExecutionEvent, validate_event}
use clausa_lens.Contracts.Graph.{GraphNode, GraphEdge, ExecutionGraph, validate_graph, is_hard}
use clausa_lens.Graph.Cycle.{GraphError, graph_cycle, invalid, has_hard_cycle}

-- `if err := g.Validate(); err != nil { if hasHardCycle(…) … }`
unfoldable pub require_valid :
    Result String (Unit {0}) → Bool → String → Result GraphError (Unit {0})
require_valid (ok tt) cyclic message = ok tt
require_valid (err e) cyclic message = if cyclic then err graph_cycle else err (invalid message)

-- The loop that fills `byID`.
unfoldable pub index_events :
    Dict ExecutionEvent → List ExecutionEvent → Result GraphError (Dict ExecutionEvent)
index_events by_id [] = ok by_id
index_events by_id (e ∷ es) =
    require_valid (validate_event e) false "invalid event"
    >> reject (has e.event_id by_id) (invalid "duplicate event_id")
    >> index_events (insert e.event_id e by_id) es

-- The zero `ExecutionEvent`, with which `make` fills the array.
abbrev pub zero_event : ExecutionEvent
zero_event = record {
  schema_version = "";
  event_id = "";
  execution_id = "";
  trace_id = "";
  parent_event_id = "";
  replay_run_id = "";
  component = record { name = ""; replica = "" };
  operation = record { name = ""; kind = OperationKind.other "" };
  event_type = EventType.other "";
  attempt = pos 0;
  logical_operation_id = "";
  occurred_at = "";
  sequence = pos 0;
  duration_ms = none;
  status = EventStatus.other "";
  attributes = none;
}

abbrev pub replicate : {A : Type 0} → ℕ → A → List A
replicate zero a = []
replicate (suc n) a = a ∷ replicate n a

-- `xs[i] = v`; the code has tested the index.
unfoldable pub set : {A : Type 0} → List A → ℤ → A → List A
set [] i v = []
set (x ∷ xs) (pos zero) v = v ∷ xs
set (x ∷ xs) (pos (suc i)) v = x ∷ set xs (pos i) v
set (x ∷ xs) i v = x ∷ xs

pub record Placed : Type 0 where
  pub indices : Dict ℤ
  pub ordered : List ExecutionEvent

placed_event : Option ExecutionEvent → Result GraphError ExecutionEvent
placed_event none = err (invalid "graph node has no supplied event")
placed_event (some e) = ok e

-- The loop over the nodes, which fills `indices` and `ordered`.
unfoldable pub place_nodes :
    Dict ExecutionEvent → Placed → List GraphNode → Result GraphError Placed
unfolding placed_event
place_nodes by_id p [] = ok p
place_nodes by_id p (n ∷ ns) = placed_event (lookup n.event_id by_id) >>= λ event.
    reject (not (n.timeline_index <ℤ pos (length p.ordered)))
      (invalid "graph timeline indices must be contiguous from zero")
    >> place_nodes by_id
        (record {
          indices = insert n.event_id n.timeline_index p.indices;
          ordered = set p.ordered n.timeline_index event;
        })
        ns

-- `indices[id]`, 0 where the key is missing.
abbrev pub index_or_zero : Option ℤ → ℤ
index_or_zero none = pos 0
index_or_zero (some i) = i

unfoldable pub index_of : Dict ℤ → String → ℤ
index_of indices id = index_or_zero (lookup id indices)

unfoldable pub check_hard_edges : Dict ℤ → List GraphEdge → Result GraphError (Unit {0})
check_hard_edges indices [] = ok tt
check_hard_edges indices (e ∷ es) =
    reject (is_hard e && not (index_of indices e.from_event_id <ℤ index_of indices e.to_event_id))
      (invalid "hard edge contradicts timeline indices")
    >> check_hard_edges indices es

unfoldable pub earlier : Dict ℤ → ExecutionEvent → ExecutionEvent → Bool
earlier indices a b = index_of indices a.event_id <ℤ index_of indices b.event_id

unfoldable pub order :
    List ExecutionEvent → ExecutionGraph → Result GraphError (List ExecutionEvent)
unfolding require_valid
order events graph = do
  require_valid (validate_graph graph) (has_hard_cycle graph.nodes graph.edges) "invalid graph"
  by_id ← index_events [] events
  reject (length by_id != length graph.nodes) (invalid "graph/event inconsistency")
  p ←
      place_nodes by_id
        (record { indices = []; ordered = replicate (length graph.nodes) zero_event }) graph.nodes
  check_hard_edges p.indices graph.edges
  ok (sort_by (earlier p.indices) p.ordered)
