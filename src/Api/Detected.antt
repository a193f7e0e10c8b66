-- ===== src/Api/Detected.antt =====
-- cmd/core-api/detect.go: detection is idempotent.
use clausa_lens.Prelude.{
  String, Bool, true, false, Bool-cases, ◌||◌, Option, none, some, List, [], ◌∷◌, ◌≡◌, ◌≢◌, ◌⊎◌,
  refl, ◌∙◌, arith, inl, inr, ok, err, Result-cases, has, ◌+++◌, Dict, lookup-insert, eq_refl,
  string_eq,
}
use clausa_lens.Contracts.Event.{ExecutionEvent}
use clausa_lens.Contracts.Incident.{Incident}
use clausa_lens.Contracts.Graph.{ExecutionGraph, GraphNode, node_ids}
use clausa_lens.Contracts.Pack.{SystemPack}
use clausa_lens.Graph.Build.{build_nodes}
use clausa_lens.Core.Store.{Store, StoreError, conflict}
use clausa_lens.Core.Immutable.{put_incident-others}
use clausa_lens.Core.Events.{events_for_execution, parent_child_edges}
use clausa_lens.Core.Incidents.{put_incident, referenced_events, check_references}
use clausa_lens.Api.Detect.{
  detect, detect_in, persist_incident, persisted, detected_incident, detected_graph,
}

-- The ids of the execution's incident and graph are taken.
abbrev present : String → Store → Bool
present id s = has ("inc-" +++ id) s.incidents || has ("graph-" +++ id) s.graphs

referenced_events-ne-conflict :
    (i : Incident) (events : Dict ExecutionEvent) (ns : List GraphNode)
    → referenced_events i events ns ≢ err conflict
unfolding referenced_events
referenced_events-ne-conflict i events [] h = ground arith
referenced_events-ne-conflict i events (n ∷ ns) h =
    ground (arith, referenced_events-ne-conflict i events ns)

check_references-ne-conflict : (nodes ids : List String) → check_references nodes ids ≢ err conflict
unfolding check_references
check_references-ne-conflict nodes [] h = ground arith
check_references-ne-conflict nodes (id ∷ ids) h =
    ground (arith, check_references-ne-conflict nodes ids)

module _ (ctx : Bool) (i : Incident) (g : ExecutionGraph) (s : Store) where
  put_incident-conflict :
      put_incident ctx i g s ≡ err conflict
      → (has i.incident_id s.incidents || has g.graph_id s.graphs) ≡ true
  unfolding put_incident
  put_incident-conflict h = ground (
    arith,
    referenced_events-ne-conflict i s.events g.nodes,
    check_references-ne-conflict (node_ids g.nodes) i.evidence_event_ids,
  )

  put_incident-taken :
      (t : Store)
      → put_incident ctx i g s ≡ ok t
      → (has i.incident_id s.incidents || has g.graph_id s.graphs) ≡ false
  unfolding put_incident
  put_incident-taken t h = ground arith

  put_incident-present :
      (t : Store) → put_incident ctx i g s ≡ ok t → has i.incident_id t.incidents ≡ true
  unfolding put_incident
  put_incident-present t h =
      ground (arith, lookup-insert i.incident_id i.incident_id i s.incidents, eq_refl i.incident_id)

  persisted-stays :
      (t : Store)
      → (has i.incident_id s.incidents || has g.graph_id s.graphs) ≡ true
      → persisted s (put_incident ctx i g s) ≡ ok t
      → t ≡ s
  persisted-stays t there h = elim (Result-cases (put_incident ctx i g s)) [
    | inl (u, puts) ↦ absurd (cc (there, put_incident-taken u puts))
    | inr (StoreError.conflict, fails) ↦ ground arith
    | inr (e, fails) ↦ ground arith
  ]

  persisted-settles :
      (t : Store)
      → persisted s (put_incident ctx i g s) ≡ ok t
      → (t.events ≡ s.events) × ((has i.incident_id t.incidents || has g.graph_id t.graphs) ≡ true)
  persisted-settles t h = elim (Result-cases (put_incident ctx i g s)) [
    | inl (u, puts) ↦
        let becomes : u ≡ t = ground arith in
        rw (← becomes)
          ((put_incident-others ctx i g s u puts).0, ground (arith, put_incident-present u puts))
    | inr (StoreError.conflict, fails) ↦
        let same : s ≡ t = ground arith in rw (← same) (refl, put_incident-conflict fails)
    | inr (e, fails) ↦ absurd (ground arith)
  ]

module _ (ctx : Bool) (pack : SystemPack) (id : String) where
  -- Detection, at whatever time, leaves the store as it is.
  abbrev Quiet : List ExecutionEvent → Store → Type 0
  Quiet events s = (now : String) (t : Store) → detect_in ctx now pack id events s ≡ ok t → t ≡ s

  present-Quiet : (events : List ExecutionEvent) (s : Store) → present id s ≡ true → Quiet events s
  unfolding detect_in persist_incident detected_incident detected_graph
  present-Quiet [] s there now t h = ground arith
  present-Quiet (e ∷ es) s there now t h = elim (Result-cases (pack.detect_incident (e ∷ es))) [
    | inr (fails, unread) ↦ absurd (ground arith)
    | inl (oracle, judged) ↦ elim (Bool-cases oracle.matched) [
      | inr silent ↦ ground arith
      | inl matched ↦ elim (Result-cases (build_nodes (e ∷ es) (parent_child_edges (e ∷ es)))) [
        | inr (fails, cyclic) ↦ absurd (ground arith)
        | inl (nodes, built) ↦
            persisted-stays ctx (detected_incident now pack id e.trace_id oracle)
              (detected_graph id nodes (parent_child_edges (e ∷ es))) s t there (ground arith)
      ]
    ]
  ]

  -- After a detection, its incident is there, or it has found nothing to store.
  detect_in-settles :
      (events : List ExecutionEvent) (now : String) (s t : Store)
      → detect_in ctx now pack id events s ≡ ok t
      → (t.events ≡ s.events) × ((present id t ≡ true) ⊎ Quiet events t)
  unfolding detect_in persist_incident detected_incident detected_graph
  detect_in-settles [] now s t h = (ground arith, inr (λ later u g. ground arith))
  detect_in-settles (e ∷ es) now s t h = elim (Result-cases (pack.detect_incident (e ∷ es))) [
    | inr (fails, unread) ↦ absurd (ground arith)
    | inl (oracle, judged) ↦ elim (Bool-cases oracle.matched) [
      | inr silent ↦ (ground arith, inr (λ later u g. ground arith))
      | inl matched ↦ elim (Result-cases (build_nodes (e ∷ es) (parent_child_edges (e ∷ es)))) [
        | inr (fails, cyclic) ↦ absurd (ground arith)
        | inl (nodes, built) ↦
            let (kept, there) =
              persisted-settles ctx (detected_incident now pack id e.trace_id oracle)
                (detected_graph id nodes (parent_child_edges (e ∷ es))) s t (ground arith) in
            (kept, inl there)
      ]
    ]
  ]

  detect_in-again :
      (events : List ExecutionEvent) (now later : String) (s t u : Store)
      → detect_in ctx now pack id events s ≡ ok t
      → detect_in ctx later pack id events t ≡ ok u
      → u ≡ t
  detect_in-again events now later s t u first second =
      elim (detect_in-settles events now s t first).1 [
        | inl there ↦ present-Quiet events t there later u second
        | inr quiet ↦ quiet later u second
      ]

events_for_execution-same :
    (ctx : Bool) (id : String) (s t : Store)
    → t.events ≡ s.events
    → events_for_execution ctx id t ≡ events_for_execution ctx id s
unfolding events_for_execution
events_for_execution-same ctx id s t same = rw same refl

-- Detection is idempotent: once it has gone through the events of an execution without an error, with
-- whatever pack or none, it leaves the store as it is when it goes through them again without an error,
-- at whatever time. No second incident or graph of the execution is stored.
pub detect-again :
    (ctx : Bool) (pack : Option SystemPack) (id now later : String) (s t u : Store)
    → detect ctx now pack id s ≡ ok t
    → detect ctx later pack id t ≡ ok u
    → u ≡ t
unfolding detect
detect-again ctx none id now later s t u first second = ground arith
detect-again ctx (some pack) id now later s t u first second =
    elim (Result-cases (events_for_execution ctx id s)) [
      | inr (e, unread) ↦ absurd (ground arith)
      | inl (events, read) ↦
          let kept = (detect_in-settles ctx pack id events now s t (ground arith)).0 in
          let reread : events_for_execution ctx id t ≡ ok events =
            events_for_execution-same ctx id s t kept ∙ read in
          detect_in-again ctx pack id events now later s t u (ground arith) (ground arith)
    ]
