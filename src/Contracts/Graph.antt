-- ===== src/Contracts/Graph.antt =====
-- internal/contracts/contracts.go: `ExecutionGraph`, its validator, and the depth-first search by
-- which the validator and internal/graph look for a cycle of hard edges.
mod Visit
pub use Visit.{Colour, Marks, Adjacency}
unfoldable pub use Visit.{mark_of, neighbours, visit, visit_any}
use clausa_lens.Prelude.{
  ℕ, suc, String, Bool, true, false, ◌&&◌, ◌||◌, not, Option, none, some, List, [], ◌∷◌, map,
  length, any, ◌==◌, ◌!=◌, string_eq, int_eq, ℤ, pos, ◌<ℤ◌, Result, Check, ok, err, reject, ◌>>◌,
  ◌>>=◌, ◌≡◌, if◌then◌else◌,
}
use clausa_lens.Contracts.EventEnums.{GraphEdgeType, valid_graph_edge_type, graph_edge_type_eq}
use clausa_lens.Contracts.Text.{contract_version}

pub record GraphNode : Type 0 where
  pub event_id : String
  pub timeline_index : ℤ

pub record GraphEdge : Type 0 where
  pub edge_id : String
  pub from_event_id : String
  pub to_event_id : String
  pub kind : GraphEdgeType

pub record ExecutionGraph : Type 0 where
  pub schema_version : String
  pub graph_id : String
  pub incident_id : String
  pub ordering_policy_version : String
  pub nodes : List GraphNode
  pub edges : List GraphEdge

-- `set[x]` for a `map[T]bool`
abbrev pub seen_text : String → List String → Bool
seen_text x xs = any (λ y. x == y) xs

-- No text stands twice.
abbrev pub Distinct : List String → Type 0
Distinct [] = Unit
Distinct (x ∷ xs) = (seen_text x xs ≡ false) × Distinct xs

abbrev pub seen_index : ℤ → List ℤ → Bool
seen_index x xs = any (λ y. x == y) xs

-- The loop over the nodes, with the ids and the indices seen so far.
unfoldable pub check_nodes : List String → List ℤ → List GraphNode → Check
check_nodes ids indices [] = ok tt
check_nodes ids indices (n ∷ ns) =
    reject
      (n.event_id == ""
        || n.timeline_index <ℤ pos 0
        || seen_text n.event_id ids
        || seen_index n.timeline_index indices)
      "invalid or duplicate graph node"
    >> check_nodes (n.event_id ∷ ids) (n.timeline_index ∷ indices) ns

abbrev pub node_ids : List GraphNode → List String
node_ids [] = []
node_ids (n ∷ ns) = n.event_id ∷ node_ids ns

-- The loop over the edges, with the edge ids seen so far.
unfoldable pub check_edges : List String → List String → List GraphEdge → Check
check_edges nodes edge_ids [] = ok tt
check_edges nodes edge_ids (e ∷ es) =
    reject
      (e.edge_id == ""
        || seen_text e.edge_id edge_ids
        || not (seen_text e.from_event_id nodes)
        || not (seen_text e.to_event_id nodes)
        || e.from_event_id == e.to_event_id
        || not (valid_graph_edge_type e.kind))
      "invalid graph edge"
    >> check_edges nodes (e.edge_id ∷ edge_ids) es

-- A temporal edge is no ordering constraint.
abbrev pub is_hard : GraphEdge → Bool
is_hard e = e.kind != GraphEdgeType.temporal

unfoldable pub hard_adjacency : List GraphEdge → Adjacency
hard_adjacency [] = []
hard_adjacency (e ∷ es) =
    let rest = hard_adjacency es in
    if is_hard e then (e.from_event_id, e.to_event_id) ∷ rest else rest

-- The ids on the stack differ, and all but the first are targets of edges, so the depth is at most
-- the number of edges and two.
unfoldable pub search_cycle : List String → Adjacency → Bool
search_cycle nodes adj = (visit_any (visit (suc (suc (length adj))) adj) nodes []).0

unfoldable pub validate_graph : ExecutionGraph → Check
validate_graph g = do
  reject
      (g.schema_version != contract_version
        || g.graph_id == ""
        || g.incident_id == ""
        || g.ordering_policy_version != contract_version)
      "missing or invalid graph field"
  check_nodes [] [] g.nodes
  check_edges (node_ids g.nodes) [] g.edges
  reject (search_cycle (node_ids g.nodes) (hard_adjacency g.edges))
      "hard ordering constraints contain a cycle"
