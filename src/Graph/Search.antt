-- ===== src/Graph/Search.antt =====
-- internal/contracts/contracts.go and internal/graph/graph.go: the search for a cycle is exact.
use clausa_lens.Prelude.{
  String, true, List, [], ◌∷◌, ◌≡◌, ◌≢◌, arith, ◌↔◌, inl, inr, ok, string_eq, Bool-cases,
}
use clausa_lens.Contracts.Text.{contract_version}
use clausa_lens.Contracts.Graph.{
  Adjacency, GraphEdge, ExecutionGraph, validate_graph, check_nodes, check_edges, node_ids,
  hard_adjacency, seen_text, search_cycle,
}
use clausa_lens.Graph.Walks.{Edge, Walk, Ends-acyclic, first}
use clausa_lens.Graph.Acyclic.{search_cycle-Ends}
use clausa_lens.Graph.Cyclic.{search_cycle-Cycle}

-- Where each edge starts at one of the nodes, the search answers `true` exactly when some node has a
-- walk of one edge or more back to itself: it misses no cycle and never answers for lack of fuel.
pub search_cycle-exact :
    (nodes : List String) (adj : Adjacency)
    → ((a b : String) → Edge a b adj → seen_text a nodes ≡ true)
    → (search_cycle nodes adj ≡ true) ↔ ((a : String) × Walk adj a a)
search_cycle-exact nodes adj starts = (
  search_cycle-Cycle nodes adj,
  λ (a, w). elim (Bool-cases (search_cycle nodes adj)) [
    | inl h ↦ h
    | inr h ↦
        let (b, e, rest) = first w in
        absurd (Ends-acyclic adj (search_cycle-Ends nodes adj h a (starts a b e)) w)
  ],
)

check_edges-starts :
    (nodes ids : List String) (es : List GraphEdge) (a b : String)
    → check_edges nodes ids es ≡ ok tt
    → Edge a b (hard_adjacency es)
    → seen_text a nodes ≡ true
unfolding check_edges hard_adjacency
check_edges-starts nodes ids [] a b h e = absurd e
check_edges-starts nodes ids (x ∷ es) a b h e =
    ground (arith, check_edges-starts nodes (x.edge_id ∷ ids) es a b)

-- A graph with the frozen versions and its ids, whose nodes and edges pass their loops, is accepted
-- exactly when no node has a walk of hard edges back to itself.
pub validate_graph-exact :
    (g : ExecutionGraph)
    → g.schema_version ≡ contract_version
    → g.ordering_policy_version ≡ contract_version
    → g.graph_id ≢ ""
    → g.incident_id ≢ ""
    → check_nodes [] [] g.nodes ≡ ok tt
    → check_edges (node_ids g.nodes) [] g.edges ≡ ok tt
    → (validate_graph g ≡ ok tt) ↔ ¬ ((a : String) × Walk (hard_adjacency g.edges) a a)
unfolding validate_graph
validate_graph-exact g version policy id incident nodes edges =
    let exact =
      search_cycle-exact (node_ids g.nodes) (hard_adjacency g.edges)
        (λ a b e. check_edges-starts (node_ids g.nodes) [] g.edges a b edges e) in
    elim (Bool-cases (search_cycle (node_ids g.nodes) (hard_adjacency g.edges))) [
      | inl cyclic ↦ (λ valid. absurd (ground arith), λ none_is. absurd (none_is (exact.0 cyclic)))
      | inr clear ↦ (
        λ valid cycle. ground (arith, exact.1 cycle),
        λ none_is. ground (
          arith,
          string_eq.beq_iff g.schema_version contract_version,
          string_eq.beq_iff g.ordering_policy_version contract_version,
          string_eq.beq_iff g.graph_id "",
          string_eq.beq_iff g.incident_id "",
        ),
      )
    ]
