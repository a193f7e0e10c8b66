-- ===== src/Examples/Graphs.antt =====
-- The search for a cycle at concrete graphs.
use clausa_lens.Prelude.{String, true, [], ◌∷◌, ok, ◌≡◌, ◌≢◌, refl, arith, ◌↔◌, string_eq}
use clausa_lens.Contracts.Graph.{
  Adjacency, validate_graph, check_nodes, check_edges, hard_adjacency, seen_text, search_cycle,
}
use clausa_lens.Graph.Walks.{Edge, Walk}
use clausa_lens.Graph.Search.{search_cycle-exact, validate_graph-exact}
use clausa_lens.Examples.Data.{graph}

abbrev ring : Adjacency
ring = ("a", "b") ∷ ("b", "c") ∷ ("c", "a") ∷ []

ring_starts : (a b : String) → Edge a b ring → seen_text a ("a" ∷ "b" ∷ "c" ∷ []) ≡ true
ring_starts a b e =
    ground (arith, string_eq.beq_iff a "a", string_eq.beq_iff a "b", string_eq.beq_iff a "c")

search_cycle-exact_example :
    (search_cycle ("a" ∷ "b" ∷ "c" ∷ []) ring ≡ true) ↔ ((a : String) × Walk ring a a)
search_cycle-exact_example = search_cycle-exact ("a" ∷ "b" ∷ "c" ∷ []) ring ring_starts

graph_parts :
    (check_nodes [] [] graph.nodes ≡ ok tt)
    × (check_edges ("ev-2" ∷ "ev-1" ∷ []) [] graph.edges ≡ ok tt)
unfolding check_nodes check_edges
graph_parts = (refl, refl)

graph_named : (graph.graph_id ≢ "") × (graph.incident_id ≢ "")
graph_named = (λ h. cc, λ h. cc)

validate_graph-exact_example :
    (validate_graph graph ≡ ok tt) ↔ ¬ ((a : String) × Walk (hard_adjacency graph.edges) a a)
validate_graph-exact_example =
    validate_graph-exact graph refl refl graph_named.0 graph_named.1 graph_parts.0 graph_parts.1
