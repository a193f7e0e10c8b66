-- ===== src/Graph/Cycle.antt =====
-- internal/graph/graph.go: `ErrGraphCycle`, the other errors, and `hasHardCycle`.
use clausa_lens.Prelude.{String, Bool, ◌&&◌, List, [], ◌∷◌, ◌!=◌, string_eq, if◌then◌else◌}
use clausa_lens.Contracts.Graph.{GraphNode, GraphEdge, Adjacency, is_hard, node_ids, search_cycle}

-- An error that wraps `ErrGraphCycle`, or another one by its message.
pub data GraphError : Type 0 where
  graph_cycle : GraphError
  invalid : String → GraphError

unfoldable pub hard_adjacency_between : List GraphEdge → Adjacency
hard_adjacency_between [] = []
hard_adjacency_between (e ∷ es) =
    let rest = hard_adjacency_between es in
    if is_hard e && e.from_event_id != e.to_event_id
    then (e.from_event_id, e.to_event_id) ∷ rest
    else rest

-- The source searches from the nodes, over edges that may lead out of them.
unfoldable pub has_hard_cycle : List GraphNode → List GraphEdge → Bool
unfolding hard_adjacency_between
has_hard_cycle nodes edges = search_cycle (node_ids nodes) (hard_adjacency_between edges)
