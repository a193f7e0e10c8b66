-- ===== src/Graph/Indices.antt =====
-- internal/graph/graph.go: the timeline indices that `BuildNodes` assigns.
use mathlib.Core.List.{Memᴰ}
use clausa_lens.Prelude.{
  ℕ, zero, suc, String, true, false, List, [], ◌∷◌, length, All, ◌==◌, string_eq, ◌≡◌, refl, arith,
  ℤ, pos, ok, err, ◌≢◌, Dict, lookup, Result-cases, ap, ◌⊎◌, inl, inr, subst, delete,
}
use clausa_lens.Contracts.Event.{ExecutionEvent}
use clausa_lens.Contracts.Graph.{
  GraphNode, GraphEdge, ExecutionGraph, Adjacency, Distinct, neighbours, hard_adjacency, seen_text,
  node_ids, check_edges, validate_graph,
}
use clausa_lens.Graph.Order.{index_events, require_valid}
use clausa_lens.Graph.Cycle.{GraphError}
use clausa_lens.Contracts.Text.{contract_version}
use clausa_lens.Graph.Build.{
  build_nodes, select_nodes, candidates, eligible_events, decrement, count_edges, zero_degrees,
  nodes_in_order,
}
use clausa_lens.Graph.Degrees.{
  Spent, Known, Inside, decrement-Spent, delete-Spent, deleted-Spent, decrement-Known, delete-Known,
  neighbours-Inside, count_edges-Known, start-Known,
}
use clausa_lens.Graph.Selected.{
  Keyed, candidates-All, eligible_events-Mem, eligible_events-Spent, index_events-seen,
  index_events-Keyed, check_edges-Inside,
}

-- The nodes have the indices from `i` on, in order.
abbrev pub Indexed : ℕ → List GraphNode → Type 0
Indexed i [] = Unit
Indexed i (n ∷ ns) = (n.timeline_index ≡ pos i) × Indexed (suc i) ns

List-cases : {A : Type 0} (xs : List A) → (xs ≡ []) ⊎ ((x : A) × ((ys : List A) × (xs ≡ x ∷ ys)))
List-cases [] = inl refl
List-cases (x ∷ xs) = inr (x, (xs, refl))

-- An id is that of one of the events.
pub record Names (events : List ExecutionEvent) (id : String) : Type 0 where
  pub event : ExecutionEvent
  pub at : Memᴰ event events
  pub is : event.event_id ≡ id

no_events : (events : List ExecutionEvent) → Keyed events []
unfolding lookup
no_events events id e h = absurd (cc h)

-- The nodes are of different events.
abbrev pub Covers : List ExecutionEvent → List GraphNode → Type 0
Covers events nodes =
    Distinct (node_ids nodes) × All (λ (n : GraphNode). Names events n.event_id) nodes

module _ (events : List ExecutionEvent) (by_id : Dict ExecutionEvent) (adj : Adjacency)
    (keyed : Keyed events by_id) (inside : Inside by_id adj) where
  -- What is selected from some degrees on: the indices, and events of which none is spent.
  record Selects (i rounds : ℕ) (degrees : Dict ℤ) (ns : List GraphNode) : Type 0 where
    pub count : length ns ≡ rounds
    pub indexed : Indexed i ns
    pub covers : Covers events ns
    pub unspent : (k : String) → Spent k degrees → seen_text k (node_ids ns) ≡ false

  select_nodes-Selects :
      (rounds i : ℕ) (degrees : Dict ℤ) (ns : List GraphNode)
      → Known by_id degrees
      → select_nodes by_id adj rounds i degrees ≡ ok ns
      → Selects i rounds degrees ns
  unfolding select_nodes
  select_nodes-Selects zero i degrees ns known h =
      let e : [] ≡ ns = ground arith in
      subst (Selects i 0 degrees) e
        (record { count = refl; indexed = tt; covers = (tt, tt); unspent = λ k s. refl })
  select_nodes-Selects (suc rounds) i degrees ns known h =
      let eligible = eligible_events by_id degrees in
      elim (List-cases (candidates eligible)) [
        | inl stuck ↦ absurd (ground arith)
        | inr (selected, (others, found)) ↦
            let id = selected.event_id in
            let left = decrement (delete id degrees) (neighbours id adj) in
            elim (Result-cases (select_nodes by_id adj rounds (suc i) left)) [
              | inr (e, fails) ↦ absurd (ground arith)
              | inl (rest, later) ↦
                  let node : GraphNode = record { event_id = id; timeline_index = pos i } in
                  let e : node ∷ rest ≡ ns = ground arith in
                  let known_left =
                    decrement-Known by_id (delete id degrees) (neighbours id adj)
                      (neighbours-Inside by_id id adj inside)
                      (delete-Known by_id id degrees known) in
                  let r = select_nodes-Selects rounds (suc i) left rest known_left later in
                  let spent_id =
                    decrement-Spent id (delete id degrees) (neighbours id adj)
                      (deleted-Spent id degrees) in
                  let member =
                    candidates-All (λ x. Memᴰ x events) eligible
                      (eligible_events-Mem events by_id keyed degrees known) in
                  subst (Selects i (suc rounds) degrees) e (record {
                    count = ap suc r.count;
                    indexed = (refl, r.indexed);
                    covers = (
                      (r.unspent id spent_id, r.covers.0),
                      (
                        record { event = selected; at = (rw found at member).0; is = refl },
                        r.covers.1,
                      ),
                    );
                    unspent = λ k s.
                        let fresh =
                          candidates-All (λ (x : ExecutionEvent). (k == x.event_id) ≡ false)
                            eligible (eligible_events-Spent events by_id keyed k degrees known s) in
                        let one = (rw found at fresh).0 in
                        let more = r.unspent k (
                          decrement-Spent k (delete id degrees) (neighbours id adj)
                            (delete-Spent k id degrees s)) in
                        rw (one, more) refl;
                  })
            ]
      ]

valid_edges :
    (g : ExecutionGraph)
    → validate_graph g ≡ ok tt
    → check_edges (node_ids g.nodes) [] g.edges ≡ ok tt
unfolding validate_graph
valid_edges g h = ground arith

-- The graph that `BuildNodes` validates.
abbrev validated : List ExecutionEvent → List GraphEdge → ExecutionGraph
validated events edges = record {
  schema_version = contract_version;
  graph_id = "validation";
  incident_id = "validation";
  ordering_policy_version = contract_version;
  nodes = nodes_in_order 0 events;
  edges = edges;
}

checked_edges :
    (events : List ExecutionEvent) (edges : List GraphEdge) (nodes : List GraphNode)
    → build_nodes events edges ≡ ok nodes
    → check_edges (node_ids (nodes_in_order 0 events)) [] edges ≡ ok tt
unfolding build_nodes require_valid
checked_edges events edges nodes h = elim (Result-cases (validate_graph (validated events edges))) [
  | inl (t, good) ↦ valid_edges (validated events edges) (ground arith)
  | inr (e, bad) ↦ elim (Result-cases (index_events [] events)) [
    | inr (f, fails) ↦ absurd (ground arith)
    | inl (by_id, indexed) ↦ absurd (ground arith)
  ]
]

unindexed :
    (events : List ExecutionEvent) (edges : List GraphEdge) (nodes : List GraphNode)
    (e : GraphError)
    → index_events [] events ≡ err e
    → build_nodes events edges ≢ ok nodes
unfolding build_nodes
unindexed events edges nodes e fails h = ground arith

built_nodes :
    (events : List ExecutionEvent) (edges : List GraphEdge) (nodes : List GraphNode)
    (by_id : Dict ExecutionEvent)
    → index_events [] events ≡ ok by_id
    → build_nodes events edges ≡ ok nodes
    → select_nodes by_id
        (hard_adjacency edges)
        (length events)
        0
        (count_edges (zero_degrees by_id) (hard_adjacency edges))
      ≡ ok nodes
unfolding build_nodes
built_nodes events edges nodes by_id indexed h = ground arith

-- When `BuildNodes` succeeds it gives one node for each event: as many as there are, of different ids,
-- each the id of one of the events. Their timeline indices go from 0 on in the order of the nodes.
pub build_nodes-Indexed :
    (events : List ExecutionEvent) (edges : List GraphEdge) (nodes : List GraphNode)
    → build_nodes events edges ≡ ok nodes
    → (length nodes ≡ length events) × Indexed 0 nodes × Covers events nodes
build_nodes-Indexed events edges nodes h = elim (Result-cases (index_events [] events)) [
  | inr (e, fails) ↦ absurd (unindexed events edges nodes e fails h)
  | inl (by_id, indexed) ↦
      let ids = node_ids (nodes_in_order 0 events) in
      let checked = checked_edges events edges nodes h in
      let seen = λ (id : String) (s : seen_text id ids ≡ true).
        index_events-seen id [] events by_id 0 indexed s in
      let inside = check_edges-Inside by_id ids [] edges seen checked in
      let r =
        select_nodes-Selects events by_id (hard_adjacency edges)
          (index_events-Keyed events [] events by_id (λ x m. m) (no_events events) indexed) inside
          (length events) 0 (count_edges (zero_degrees by_id) (hard_adjacency edges)) nodes
          (count_edges-Known by_id (zero_degrees by_id) (hard_adjacency edges) inside
            (start-Known by_id))
          (built_nodes events edges nodes by_id indexed h) in
      (r.count, r.indexed, r.covers)
]
