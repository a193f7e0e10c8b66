-- ===== src/Examples/Records.antt =====
-- Tests of the store's events, incidents, capsules and diffs.
use clausa_lens.Prelude.{
  ◌⊎◌, ℕ, ◌≤◌, false, none, some, [], ◌∷◌, length, All, pos, ok, ◌≡◌, refl, lookup, insert, sort_by,
  insert_by, is_blank,
}
use clausa_lens.Contracts.EventEnums.{EventType}
use clausa_lens.Contracts.IncidentEnums.{IncidentStatus}
use clausa_lens.Contracts.Time.{valid_utc_time, parse_time}
use clausa_lens.Contracts.Event.{ExecutionEvent}
use clausa_lens.Contracts.Incident.{validate_incident}
use clausa_lens.Contracts.Graph.{
  node_ids, validate_graph, check_nodes, check_edges, search_cycle, visit_any, visit, mark_of,
  neighbours, hard_adjacency,
}
use clausa_lens.Graph.Order.{
  order, index_events, place_nodes, set, check_hard_edges, index_of, earlier, require_valid,
}
use clausa_lens.Contracts.Event.{validate_event}
use clausa_lens.Core.Store.{Store, new_store}
use clausa_lens.Core.Runs.{put_run, authorize}
use clausa_lens.Core.Incidents.{
  put_incident, referenced_events, check_references, list_incidents, IncidentListQuery,
  IncidentPage, no_cursor, limit_of, matching, page_of,
}
use clausa_lens.Core.Steps.{Steps, put, here, next}
use clausa_lens.Core.Immutable.{stored_stay}
use clausa_lens.Core.References.{Belongs, put_incident-Belongs}
use clausa_lens.Core.Pages.{list_incidents-page}
use clausa_lens.Core.Query.{Wanted, Listed}
use clausa_lens.Examples.Data.{host, baseline, event, graph, incident}
use clausa_lens.Examples.Valid.{runs_valid}
use clausa_lens.Examples.Capsules.{capsule}
use clausa_lens.Examples.Diffs.{diff}

abbrev first_event : ExecutionEvent
first_event = event "ev-1" EventType.timeout

abbrev recorded : Store
recorded = record new_store {
  events = ("ev-1", first_event) ∷ ("ev-2", event "ev-2" EventType.retry) ∷ [];
  capsules = ("cap-1", capsule) ∷ [];
  diffs = ("diff-1", diff) ∷ [];
}

abbrev with_baseline : Store
with_baseline = record recorded { runs = ("run-1", baseline) ∷ [] }

puts_run : put_run host false baseline recorded ≡ ok with_baseline
unfolding put_run authorize insert lookup
puts_run = rw runs_valid.0 refl

abbrev one_call : Steps host recorded with_baseline
one_call = next here (put false baseline puts_run)

stored :
    (lookup "ev-1" recorded.events ≡ some first_event)
    × (lookup "cap-1" recorded.capsules ≡ some capsule)
    × (lookup "diff-1" recorded.diffs ≡ some diff)
unfolding lookup
stored = (refl, refl, refl)

stored_stay_example :
    (lookup "ev-1" with_baseline.events ≡ some first_event)
    × (lookup "cap-1" with_baseline.capsules ≡ some capsule)
    × (lookup "diff-1" with_baseline.diffs ≡ some diff)
stored_stay_example = stored_stay host one_call "ev-1" "cap-1" "diff-1" stored.0 stored.1 stored.2

abbrev with_incident : Store
with_incident = record recorded {
  incidents = ("inc-1", incident) ∷ [];
  graphs = ("graph-1", graph) ∷ [];
}

puts_incident : put_incident false incident graph recorded ≡ ok with_incident
unfolding put_incident referenced_events check_references validate_incident is_blank order
    validate_graph check_nodes check_edges search_cycle visit_any visit mark_of neighbours lookup
    hard_adjacency insert index_events validate_event valid_utc_time parse_time place_nodes set
    check_hard_edges index_of sort_by insert_by earlier require_valid
puts_incident = refl

put_incident-Belongs_example :
    (with_incident.events ≡ recorded.events)
    × All (Belongs incident recorded.events) (node_ids graph.nodes)
    × All (Belongs incident recorded.events) incident.evidence_event_ids
put_incident-Belongs_example =
    put_incident-Belongs false incident graph recorded with_incident puts_incident

abbrev ready : IncidentListQuery
ready = record { status = some IncidentStatus.ready; after = no_cursor; limit = some (pos 1) }

abbrev one_page : IncidentPage
one_page = record { items = incident ∷ []; next_cursor = none }

lists : list_incidents false ready with_incident ≡ ok one_page
unfolding list_incidents matching parse_time sort_by insert_by page_of
lists = refl

list_incidents-page_example :
    (limit : ℕ) × (limit_of ready.limit ≡ pos limit)
    × (length one_page.items ≤ limit)
    × (limit ≤ 100)
    × All (Wanted ready) one_page.items
    × ((length one_page.items ≡ limit) ⊎ All (Listed ready one_page.items) (incident ∷ []))
list_incidents-page_example = list_incidents-page false ready with_incident one_page lists
