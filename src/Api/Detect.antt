-- ===== src/Api/Detect.antt =====
-- cmd/core-api/detect.go: the detection of an incident in the events of one execution. `now` is the
-- text that `time.Now().UTC().Format(time.RFC3339Nano)` gives. The store is as it was where an error
-- is returned.
use clausa_lens.Prelude.{
  String, Bool, not, Option, none, some, List, [], ◌∷◌, Result, ok, err, ◌>>=◌, ◌+++◌,
  if◌then◌else◌,
}
use clausa_lens.Contracts.Text.{contract_version}
use clausa_lens.Contracts.IncidentEnums.{IncidentStatus, SanitizationStatus}
use clausa_lens.Contracts.Isolation.{elements}
use clausa_lens.Contracts.Event.{ExecutionEvent}
use clausa_lens.Contracts.Incident.{Incident}
use clausa_lens.Contracts.Graph.{GraphNode, GraphEdge, ExecutionGraph}
use clausa_lens.Contracts.Run.{OracleResult}
use clausa_lens.Contracts.Pack.{SystemPack}
use clausa_lens.Graph.Cycle.{GraphError}
use clausa_lens.Graph.Build.{build_nodes}
use clausa_lens.Core.Store.{Store, StoreError}
use clausa_lens.Core.Events.{events_for_execution, parent_child_edges}
use clausa_lens.Core.Incidents.{put_incident}

pub data DetectError : Type 0 where
  load_failed persist_failed : StoreError → DetectError
  oracle_failed : String → DetectError
  graph_failed : GraphError → DetectError

abbrev pub wrapped : {E D A : Type 0} → (E → D) → Result E A → Result D A
wrapped wrap (ok a) = ok a
wrapped wrap (err e) = err (wrap e)

unfoldable pub detected_incident : String → SystemPack → String → String → OracleResult → Incident
detected_incident now pack execution_id trace_id oracle = record {
  schema_version = contract_version;
  incident_id = "inc-" +++ execution_id;
  status = IncidentStatus.ready;
  block_reason = none;
  failure_oracle = oracle.oracle;
  system_pack = pack.descriptor;
  trace_id = trace_id;
  execution_id = execution_id;
  detected_at = now;
  summary = oracle.explanation;
  evidence_event_ids = elements oracle.required_evidence_event_ids;
  graph_id = "graph-" +++ execution_id;
  sanitization_status = SanitizationStatus.pass;
}

unfoldable pub detected_graph : String → List GraphNode → List GraphEdge → ExecutionGraph
detected_graph execution_id nodes edges = record {
  schema_version = contract_version;
  graph_id = "graph-" +++ execution_id;
  incident_id = "inc-" +++ execution_id;
  ordering_policy_version = contract_version;
  nodes = nodes;
  edges = edges;
}

-- A conflict means that the execution was detected before, and is no error.
abbrev pub persisted : Store → Result StoreError Store → Result DetectError Store
persisted s (ok t) = ok t
persisted s (err StoreError.conflict) = ok s
persisted s (err e) = err (DetectError.persist_failed e)

unfoldable pub persist_incident :
    Bool
    → String
    → SystemPack
    → String
    → String
    → OracleResult
    → List ExecutionEvent
    → Store
    → Result DetectError Store
unfolding detected_incident detected_graph
persist_incident ctx now pack execution_id trace_id oracle events s =
    wrapped DetectError.graph_failed (build_nodes events (parent_child_edges events)) >>= λ nodes.
    persisted s (
      put_incident ctx (detected_incident now pack execution_id trace_id oracle)
        (detected_graph execution_id nodes (parent_child_edges events)) s)

unfoldable pub detect_in :
    Bool → String → SystemPack → String → List ExecutionEvent → Store → Result DetectError Store
unfolding persist_incident
detect_in ctx now pack execution_id [] s = ok s
detect_in ctx now pack execution_id (e ∷ es) s =
    wrapped DetectError.oracle_failed (pack.detect_incident (e ∷ es)) >>= λ oracle.
    if not oracle.matched
    then ok s
    else persist_incident ctx now pack execution_id e.trace_id oracle (e ∷ es) s

-- `detectAndPersistIncident`
unfoldable pub detect :
    Bool → String → Option SystemPack → String → Store → Result DetectError Store
unfolding detect_in
detect ctx now none execution_id s = ok s
detect ctx now (some pack) execution_id s =
    wrapped DetectError.load_failed (events_for_execution ctx execution_id s) >>= λ events.
    detect_in ctx now pack execution_id events s
