-- ===== src/Examples/Data.antt =====
-- Runs, events and capsules for the tests.
use clausa_lens.Prelude.{String, true, none, some, List, [], ◌∷◌, pos}
use clausa_lens.Contracts.EventEnums.{OperationKind, EventType, EventStatus, GraphEdgeType}
use clausa_lens.Contracts.IncidentEnums.{IncidentStatus, SanitizationStatus}
use clausa_lens.Contracts.RunEnums.{RunType, RunStatus, Outcome, Verdict}
use clausa_lens.Contracts.Values.{bool_val}
use clausa_lens.Contracts.Event.{ExecutionEvent}
use clausa_lens.Contracts.Incident.{Incident}
use clausa_lens.Contracts.Graph.{ExecutionGraph}
use clausa_lens.Contracts.Isolation.{IsolationEvidence}
use clausa_lens.Contracts.Capsule.{EffectSummary}
use clausa_lens.Contracts.Run.{ReplayRun, Intervention, OracleResult}

abbrev pub host : String → String
host destination = destination

abbrev pub digest : String
digest = "0123456789abcdef0123456789abcdef0123456789abcdef0123456789abcdef"

abbrev pub noon : String
noon = "2026-08-29T12:00:00Z"

abbrev pub baseline : ReplayRun
baseline = record {
  schema_version = "1.0";
  run_id = "run-1";
  execution_id = "exec-1";
  capsule_id = "cap-1";
  capsule_hash = digest;
  run_type = RunType.baseline;
  baseline_run_id = "";
  intervention = none;
  trial_number = pos 1;
  status = RunStatus.created;
  outcome = Outcome.unset;
  started_at = "";
  completed_at = "";
  observed_event_ids = [];
  effect_summary = none;
  failure_oracle_result = none;
  isolation_evidence = none;
  error = none;
}

abbrev pub validating : ReplayRun
validating = record baseline { status = RunStatus.validating }

abbrev pub running : ReplayRun
running = record baseline { status = RunStatus.running; started_at = noon }

abbrev pub two_effects : EffectSummary
two_effects = record { payment_attempt_count = pos 2; ledger_commit_count = pos 2 }

abbrev pub duplicated : OracleResult
duplicated = record {
  oracle = record { id = "duplicate_ledger_effect"; version = "1.0.0" };
  matched = true;
  effect_summary = two_effects;
  required_evidence_event_ids = some ("ev-1" ∷ []);
  explanation = "two committed effects";
}

abbrev pub isolated : IsolationEvidence
isolated = record {
  policy_version = "1.0";
  verdict = Verdict.pass;
  runtime_namespace = "replay-run-1";
  network_policy = Verdict.pass;
  credential_profile = "replay-only";
  datastore_destinations = some ("postgres://replay/ledger" ∷ []);
  simulator_interactions = some [];
  denied_interactions = some [];
  teardown_result = Verdict.pass;
}

abbrev pub completed : ReplayRun
completed = record running {
  status = RunStatus.completed;
  outcome = Outcome.reproduced;
  completed_at = noon;
  effect_summary = some two_effects;
  failure_oracle_result = some duplicated;
  isolation_evidence = some isolated;
}

abbrev pub faster : Intervention
faster = record { kind = "PAYMENT_LATENCY"; from = pos 350; to = pos 50; unit = "ms" }

abbrev pub what_if : ReplayRun
what_if = record baseline {
  run_id = "run-2";
  run_type = RunType.what_if;
  baseline_run_id = "run-1";
  intervention = some faster;
}

abbrev pub event : String → EventType → ExecutionEvent
event id kind = record {
  schema_version = "1.0";
  event_id = id;
  execution_id = "exec-1";
  trace_id = "trace-1";
  parent_event_id = "";
  replay_run_id = "run-1";
  component = record { name = "checkout"; replica = "checkout-1" };
  operation = record { name = "pay"; kind = OperationKind.dependency };
  event_type = kind;
  attempt = pos 2;
  logical_operation_id = "checkout-42";
  occurred_at = noon;
  sequence = pos 0;
  duration_ms = none;
  status = EventStatus.success;
  attributes = some (("effect_committed", bool_val true) ∷ []);
}

abbrev pub events : List ExecutionEvent
events =
    event "ev-1" EventType.timeout
    ∷ event "ev-2" EventType.retry
    ∷ event "ev-3" EventType.effect
    ∷ event "ev-4" EventType.effect
    ∷ []

abbrev pub graph : ExecutionGraph
graph = record {
  schema_version = "1.0";
  graph_id = "graph-1";
  incident_id = "inc-1";
  ordering_policy_version = "1.0";
  nodes =
      record { event_id = "ev-2"; timeline_index = pos 1 }
      ∷ record { event_id = "ev-1"; timeline_index = pos 0 }
      ∷ [];
  edges =
      record {
        edge_id = "edge-0";
        from_event_id = "ev-1";
        to_event_id = "ev-2";
        kind = GraphEdgeType.retry;
      }
      ∷ [];
}

abbrev pub incident : Incident
incident = record {
  schema_version = "1.0";
  incident_id = "inc-1";
  status = IncidentStatus.ready;
  block_reason = none;
  failure_oracle = record { id = "duplicate_ledger_effect"; version = "1.0.0" };
  system_pack = record { id = "checkout"; version = "1.0.0"; interface_version = "1.0" };
  trace_id = "trace-1";
  execution_id = "exec-1";
  detected_at = noon;
  summary = "a duplicated effect";
  evidence_event_ids = "ev-1" ∷ [];
  graph_id = "graph-1";
  sanitization_status = SanitizationStatus.pass;
}
