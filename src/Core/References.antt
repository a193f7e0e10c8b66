-- ===== src/Core/References.antt =====
-- internal/core/store.go: what `PutIncident` has checked of the events that an incident refers to.
use clausa_lens.Prelude.{
  String, Bool, true, some, List, [], ◌∷◌, ◌≡◌, sym, arith, ok, All, ◌==◌, string_eq, Dict, lookup,
  eq_sound, Option-cases, Bool-cases, inl, inr, Result-cases, subst,
}
use clausa_lens.Contracts.Event.{ExecutionEvent}
use clausa_lens.Contracts.Incident.{Incident}
use clausa_lens.Contracts.Graph.{GraphNode, ExecutionGraph, seen_text, node_ids}
use clausa_lens.Core.Store.{Store}
use clausa_lens.Core.Incidents.{put_incident, referenced_events, check_references}

-- An event of an incident stands in the store, with the incident's execution and trace.
pub record Belongs (i : Incident) (events : Dict ExecutionEvent) (id : String) : Type 0 where
  pub event : ExecutionEvent
  pub at : lookup id events ≡ some event
  pub execution : event.execution_id ≡ i.execution_id
  pub trace : event.trace_id ≡ i.trace_id

referenced_events-Belongs :
    (i : Incident) (events : Dict ExecutionEvent) (ns : List GraphNode) (es : List ExecutionEvent)
    → referenced_events i events ns ≡ ok es
    → All (Belongs i events) (node_ids ns)
unfolding referenced_events
referenced_events-Belongs i events [] es h = tt
referenced_events-Belongs i events (n ∷ ns) es h = elim (Option-cases (lookup n.event_id events)) [
  | inl gone ↦ absurd (cc (rw gone at h))
  | inr (e, at) ↦ elim (Result-cases (referenced_events i events ns)) [
    | inr (failure, fails) ↦ absurd (ground arith)
    | inl (others, later) ↦ (
      record {
        event = e;
        at = at;
        execution = eq_sound e.execution_id i.execution_id (ground arith);
        trace = eq_sound e.trace_id i.trace_id (ground arith);
      },
      referenced_events-Belongs i events ns others later,
    )
  ]
]

seen_Belongs :
    (P : String → Type 0) (id : String) (ids : List String)
    → seen_text id ids ≡ true
    → All P ids
    → P id
seen_Belongs P id [] h all = absurd (cc h)
seen_Belongs P id (j ∷ ids) h (now, later) = elim (Bool-cases (id == j)) [
  | inl same ↦ subst P (sym (eq_sound id j same)) now
  | inr other ↦ seen_Belongs P id ids (rw other at h) later
]

check_references-All :
    (P : String → Type 0) (nodes ids : List String)
    → check_references nodes ids ≡ ok tt
    → All P nodes
    → All P ids
unfolding check_references
check_references-All P nodes [] h all = tt
check_references-All P nodes (id ∷ ids) h all = (
  seen_Belongs P id nodes (ground arith) all,
  check_references-All P nodes ids (ground arith) all,
)

put_incident-referenced :
    (ctx : Bool) (i : Incident) (g : ExecutionGraph) (s t : Store)
    → put_incident ctx i g s ≡ ok t
    → (es : List ExecutionEvent) × (referenced_events i s.events g.nodes ≡ ok es)
unfolding put_incident
put_incident-referenced ctx i g s t h = elim (Result-cases (referenced_events i s.events g.nodes)) [
  | inl found ↦ found
  | inr (failure, fails) ↦ absurd (ground arith)
]

put_incident-evidence :
    (ctx : Bool) (i : Incident) (g : ExecutionGraph) (s t : Store)
    → put_incident ctx i g s ≡ ok t
    → check_references (node_ids g.nodes) i.evidence_event_ids ≡ ok tt
unfolding put_incident
put_incident-evidence ctx i g s t h = ground arith

-- After `PutIncident` succeeds, every node of the graph and every piece of evidence of the incident is
-- an event that the store held before and holds still, of the incident's own execution and trace.
pub put_incident-Belongs :
    (ctx : Bool) (i : Incident) (g : ExecutionGraph) (s t : Store)
    → put_incident ctx i g s ≡ ok t
    → (t.events ≡ s.events)
      × All (Belongs i s.events) (node_ids g.nodes)
      × All (Belongs i s.events) i.evidence_event_ids
unfolding put_incident
put_incident-Belongs ctx i g s t h =
    let (es, found) = put_incident-referenced ctx i g s t h in
    let nodes = referenced_events-Belongs i s.events g.nodes es found in
    let evidence = put_incident-evidence ctx i g s t h in
    (
      ground arith,
      nodes,
      check_references-All (Belongs i s.events) (node_ids g.nodes) i.evidence_event_ids evidence
          nodes,
    )
