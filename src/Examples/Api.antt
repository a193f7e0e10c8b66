-- ===== src/Examples/Api.antt =====
-- The core API at concrete events: an incident is detected, and its capsule compiled.
use clausa_lens.Prelude.{
  false, some, List, [], ◌∷◌, String, pos, Result, ok, ◌≡◌, refl, lookup, insert, is_blank,
  is_sha256, delete, sort_by, insert_by,
}
use clausa_lens.Contracts.EventEnums.{EventType}
use clausa_lens.Contracts.Event.{validate_event}
use clausa_lens.Contracts.Time.{valid_utc_time, parse_time, zero_time}
use clausa_lens.Contracts.Incident.{validate_incident}
use clausa_lens.Contracts.Graph.{
  GraphNode, validate_graph, check_nodes, check_edges, search_cycle, visit_any, visit, mark_of,
  neighbours, hard_adjacency,
}
use clausa_lens.Contracts.Pack.{SystemPack}
use clausa_lens.Graph.Order.{
  order, index_events, place_nodes, check_hard_edges, index_of, earlier, set, require_valid,
}
use clausa_lens.Graph.Build.{
  build_nodes, select_nodes, candidates, eligible_events, decrement, count_edges, zero_degrees,
  nodes_in_order, earliest_from, occurred, tie_less,
}
use clausa_lens.Core.Store.{Store, new_store, not_found}
use clausa_lens.Core.Events.{
  events_for_execution, stable_order, event_less, parent_child_edges, edges_from,
}
use clausa_lens.Core.Incidents.{
  IncidentDetail, put_incident, referenced_events, check_references, get_incident_detail,
  node_events,
}
use clausa_lens.Core.Runs.{put_capsule, get_capsule, get_diff}
use clausa_lens.Contracts.Capsule.{ReplayCapsule}
use clausa_lens.Contracts.Values.{valid_json_object}
use clausa_lens.Contracts.Text.{nonempty_strings}
use clausa_lens.Contracts.CapsuleCheck.{
  validate_capsule, check_header, check_source, check_fixtures, check_state_fixtures,
  check_dependency_fixtures, check_plan, check_load_order, check_oracle, check_safety,
  is_only_intervention,
}
use clausa_lens.Capsule.Compile.{
  compile, seal, assemble, safe_policy, verify_digest, compute_digest, blanked,
}
use clausa_lens.Api.Respond.{Response, mapped_error}
use clausa_lens.Api.Reads.{answer_diff}
use clausa_lens.Api.Incidents.{post_capsule, compile_incident, store_compiled, capsule_input}
use clausa_lens.Api.Compiled.{post_capsule-again}
use clausa_lens.Packs.Dev.{dev_pack, dev_fixtures, dev_plan}
use clausa_lens.Api.Detect.{detect, detect_in, persist_incident, detected_incident, detected_graph}
use clausa_lens.Api.Detected.{detect-again}
use clausa_lens.Examples.Data.{noon, digest, event, duplicated}

abbrev captured : Store
captured = record new_store {
  events = ("ev-1", event "ev-1" EventType.timeout) ∷ ("ev-2", event "ev-2" EventType.retry) ∷ [];
}

abbrev pack : SystemPack
pack = record dev_pack { detect_incident = λ es. ok duplicated }

abbrev nodes : List GraphNode
nodes =
    record { event_id = "ev-1"; timeline_index = pos 0 }
    ∷ record { event_id = "ev-2"; timeline_index = pos 1 }
    ∷ []

abbrev detected : Store
detected = record captured {
  incidents = ("inc-exec-1", detected_incident noon pack "exec-1" "trace-1" duplicated) ∷ [];
  graphs = ("graph-exec-1", detected_graph "exec-1" nodes []) ∷ [];
}

-- The first time the incident is stored; the second time its ids are taken.
detects :
    (detect false noon (some pack) "exec-1" captured ≡ ok detected)
    × (detect false noon (some pack) "exec-1" detected ≡ ok detected)
unfolding detect detect_in persist_incident detected_incident detected_graph events_for_execution
    stable_order event_less parent_child_edges edges_from put_incident referenced_events
    check_references validate_incident is_blank order validate_graph check_nodes check_edges
    search_cycle visit_any visit mark_of neighbours lookup hard_adjacency insert index_events
    validate_event valid_utc_time parse_time place_nodes set check_hard_edges index_of sort_by
    insert_by earlier require_valid build_nodes select_nodes candidates eligible_events decrement
    count_edges zero_degrees nodes_in_order delete earliest_from occurred tie_less zero_time
    dev_pack
detects = (refl, refl)

detect-again_example : detected ≡ detected
detect-again_example =
    detect-again false (some pack) "exec-1" noon noon captured detected detected detects.0 detects.1

abbrev one_digest : ReplayCapsule → Result String String
one_digest c = ok digest

abbrev compiled : ReplayCapsule
compiled =
    let d : IncidentDetail = record {
      incident = detected_incident noon pack "exec-1" "trace-1" duplicated;
      graph = detected_graph "exec-1" nodes [];
      events = event "ev-1" EventType.timeout ∷ event "ev-2" EventType.retry ∷ [];
    } in
    let c =
      assemble pack (capsule_input noon "cap-inc-exec-1-1" d) dev_fixtures
        (dev_plan dev_fixtures) in
    record c { integrity = record { algorithm = "SHA-256"; digest = digest } }

abbrev with_capsule : Store
with_capsule = record detected { capsules = ("cap-inc-exec-1-1", compiled) ∷ [] }

posts_capsule :
    post_capsule one_digest false noon (some pack) "inc-exec-1" detected
    ≡ (with_capsule, Response.created_capsule compiled)
unfolding post_capsule compile_incident store_compiled capsule_input get_incident_detail node_events
    put_capsule get_capsule order index_events place_nodes set check_hard_edges index_of sort_by
    insert_by earlier lookup insert validate_event valid_utc_time parse_time hard_adjacency
    detected_incident detected_graph validate_graph check_nodes check_edges search_cycle visit_any
    visit mark_of neighbours require_valid compile seal assemble safe_policy verify_digest
    compute_digest blanked dev_pack dev_fixtures dev_plan validate_capsule check_header check_source
    check_fixtures check_state_fixtures check_dependency_fixtures check_plan check_load_order
    check_oracle check_safety is_only_intervention valid_json_object nonempty_strings is_sha256
    is_blank
posts_capsule = refl

post_capsule-again_example :
    (get_capsule false "cap-inc-exec-1-1" with_capsule ≡ ok compiled)
    × (post_capsule one_digest false "2026-01-02T00:00:00Z" (some pack) "inc-exec-1" with_capsule
        ≡ (with_capsule, Response.created_capsule compiled))
post_capsule-again_example =
    post_capsule-again one_digest pack "inc-exec-1" noon "2026-01-02T00:00:00Z" detected
      with_capsule compiled posts_capsule

-- A diff that is not there.
unknown_diff : answer_diff false "diff-9" detected ≡ mapped_error not_found
unfolding answer_diff get_diff lookup mapped_error
unknown_diff = refl
