-- ===== src/Graph/Sequence.antt =====
-- internal/graph/graph.go: the sequence that `Order` returns.
use clausa_lens.Prelude.{
  String, true, false, not, ◌||◌, some, List, [], ◌∷◌, length, All, ◌≡◌, refl, arith, ok, ◌==◌,
  string_eq, int_eq, eq_refl, eq_sound, ℤ, ◌<ℤ◌, Dict, lookup, insert, lookup-insert, sort_by,
  IsSorted, sort_by-IsSorted, Result-cases, Option-cases, Bool-cases, inl, inr,
}
use clausa_lens.Contracts.Event.{ExecutionEvent}
use clausa_lens.Contracts.Graph.{
  GraphNode, GraphEdge, ExecutionGraph, validate_graph, check_nodes, node_ids, seen_text, is_hard,
}
use clausa_lens.Graph.Order.{
  order, index_events, Placed, place_nodes, check_hard_edges, index_of, earlier, require_valid,
  zero_event, replicate, set,
}

-- A node that comes later has another id.
later_ids :
    (id : String) (ids : List String) (indices : List ℤ) (ns : List GraphNode)
    → check_nodes ids indices ns ≡ ok tt
    → seen_text id ids ≡ true
    → seen_text id (node_ids ns) ≡ false
unfolding check_nodes
later_ids id ids indices [] h k = refl
later_ids id ids indices (n ∷ ns) h k = elim (Bool-cases (id == n.event_id)) [
  | inl same ↦ absurd (ground (arith, eq_sound id n.event_id same))
  | inr other ↦
      let later : check_nodes (n.event_id ∷ ids) (n.timeline_index ∷ indices) ns ≡ ok tt =
        ground arith in
      rw other (later_ids id (n.event_id ∷ ids) (n.timeline_index ∷ indices) ns later (rw other k))
]

-- A node leaves the index of every other id.
place_nodes-others :
    (by_id : Dict ExecutionEvent) (p q : Placed) (id : String) (ns : List GraphNode)
    → place_nodes by_id p ns ≡ ok q
    → seen_text id (node_ids ns) ≡ false
    → lookup id q.indices ≡ lookup id p.indices
unfolding place_nodes
place_nodes-others by_id p q id [] h k = ground arith
place_nodes-others by_id p q id (n ∷ ns) h k = elim (Option-cases (lookup n.event_id by_id)) [
  | inl gone ↦ absurd (ground arith)
  | inr (e, at) ↦
      let next : Placed = record {
        indices = insert n.event_id n.timeline_index p.indices;
        ordered = set p.ordered n.timeline_index e;
      } in
      let placed : place_nodes by_id next ns ≡ ok q = ground arith in
      ground (
        arith,
        place_nodes-others by_id next q id ns placed,
        lookup-insert n.event_id id n.timeline_index p.indices,
        string_eq.beq_iff id n.event_id,
        string_eq.beq_iff n.event_id id,
      )
]

-- Each node has its own index.
place_nodes-All :
    (by_id : Dict ExecutionEvent) (p q : Placed) (ids : List String) (indices : List ℤ)
    (ns : List GraphNode)
    → place_nodes by_id p ns ≡ ok q
    → check_nodes ids indices ns ≡ ok tt
    → All (λ (n : GraphNode). lookup n.event_id q.indices ≡ some n.timeline_index) ns
unfolding place_nodes check_nodes
place_nodes-All by_id p q ids indices [] h k = tt
place_nodes-All by_id p q ids indices (n ∷ ns) h k = elim (Option-cases (lookup n.event_id by_id)) [
  | inl gone ↦ absurd (ground arith)
  | inr (e, at) ↦
      let next : Placed = record {
        indices = insert n.event_id n.timeline_index p.indices;
        ordered = set p.ordered n.timeline_index e;
      } in
      let placed : place_nodes by_id next ns ≡ ok q = ground arith in
      let rest : check_nodes (n.event_id ∷ ids) (n.timeline_index ∷ indices) ns ≡ ok tt =
        ground arith in
      let kept = place_nodes-others by_id next q n.event_id ns placed (
        later_ids n.event_id (n.event_id ∷ ids) (n.timeline_index ∷ indices) ns rest
          (rw (eq_refl n.event_id) refl)) in
      (
        rw kept (rw lookup-insert (rw (eq_refl n.event_id) refl)),
        place_nodes-All by_id next q (n.event_id ∷ ids) (n.timeline_index ∷ indices) ns placed rest,
      )
]

check_hard_edges-All :
    (indices : Dict ℤ) (es : List GraphEdge)
    → check_hard_edges indices es ≡ ok tt
    → All
        (λ (e : GraphEdge).
          not (is_hard e) || (index_of indices e.from_event_id <ℤ index_of indices e.to_event_id)
          ≡ true)
        es
unfolding check_hard_edges
check_hard_edges-All indices [] h = tt
check_hard_edges-All indices (e ∷ es) h =
    (ground arith, check_hard_edges-All indices es (ground arith))

earlier_asym :
    (indices : Dict ℤ) (a b : ExecutionEvent)
    → earlier indices a b ≡ true
    → earlier indices b a ≡ false
unfolding earlier
earlier_asym indices a b h = ground arith

-- The sequence of a graph's events: an index of each node, that of the graph, by which the events are
-- sorted and hard edges lead forward.
pub record Ordered (graph : ExecutionGraph) (es : List ExecutionEvent) : Type 0 where
  pub indices : Dict ℤ
  pub nodes : All (λ (n : GraphNode). lookup n.event_id indices ≡ some n.timeline_index) graph.nodes
  pub edges :
      All
        (λ (e : GraphEdge).
          not (is_hard e) || (index_of indices e.from_event_id <ℤ index_of indices e.to_event_id)
          ≡ true)
        graph.edges
  pub sorted : IsSorted (earlier indices) es

valid_nodes : (g : ExecutionGraph) → validate_graph g ≡ ok tt → check_nodes [] [] g.nodes ≡ ok tt
unfolding validate_graph
valid_nodes g h = ground arith

-- When `Order` returns a sequence, it is sorted by the timeline indices of the graph's nodes, and every
-- hard edge leads from a smaller index to a greater one.
pub order-Ordered :
    (events : List ExecutionEvent) (graph : ExecutionGraph) (es : List ExecutionEvent)
    → order events graph ≡ ok es
    → Ordered graph es
unfolding order require_valid
order-Ordered events graph es h = elim (Result-cases (index_events [] events)) [
  | inr (e, fails) ↦ absurd (ground arith)
  | inl (by_id, indexed) ↦
      let empty : Placed = record {
        indices = [];
        ordered = replicate (length graph.nodes) zero_event;
      } in
      elim (Result-cases (place_nodes by_id empty graph.nodes)) [
        | inr (e, fails) ↦ absurd (ground arith)
        | inl (p, placed) ↦
            let valid : validate_graph graph ≡ ok tt = ground arith in
            let is : es ≡ sort_by (earlier p.indices) p.ordered = ground arith in
            record {
              indices = p.indices;
              nodes =
                  place_nodes-All by_id empty p [] [] graph.nodes placed (valid_nodes graph valid);
              edges = check_hard_edges-All p.indices graph.edges (ground arith);
              sorted =
                  rw is (sort_by-IsSorted (earlier p.indices) (earlier_asym p.indices) p.ordered);
            }
      ]
]
