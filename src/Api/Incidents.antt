-- ===== src/Api/Incidents.antt =====
-- cmd/core-api/main.go: the handlers of events and capsules. A body that `DecodeStrict` refuses is `none`;
-- each handler runs without another's calls between its own, and its context is cancelled throughout or
-- not at all.
use clausa_lens.Prelude.{String, Bool, Option, none, some, [], Result, ok, err, ◌+++◌}
use clausa_lens.Contracts.Values.{Fields}
use clausa_lens.Contracts.Event.{ExecutionEvent}
use clausa_lens.Contracts.Incident.{Incident}
use clausa_lens.Contracts.Capsule.{CapsuleSource, ReplayCapsule}
use clausa_lens.Contracts.Pack.{SystemPack}
use clausa_lens.Core.Store.{Store, StoreError}
use clausa_lens.Core.Events.{ingest_event}
use clausa_lens.Core.Incidents.{IncidentDetail, get_incident_detail}
use clausa_lens.Core.Runs.{put_capsule, get_capsule}
use clausa_lens.Capsule.Compile.{CompileInput, CompileError, compile}
use clausa_lens.Api.Respond.{Response, bad_request, no_pack, mapped_error, capsule_error}
use clausa_lens.Api.Detect.{detect, DetectError}

-- The store after a detection whose error is only logged.
abbrev pub after_detection : Store → Result DetectError Store → Store
after_detection s (ok t) = t
after_detection s (err e) = s

abbrev event_refused : StoreError → Response
event_refused StoreError.conflict = bad_request
event_refused (StoreError.invalid_event e) = bad_request
event_refused e = mapped_error e

-- POST /v1/events
unfoldable pub post_event :
    Bool → String → Option SystemPack → Option ExecutionEvent → Store → Store × Response
unfolding mapped_error
post_event ctx now pack none s = (s, bad_request)
post_event ctx now pack (some e) s = elim (ingest_event ctx e s) [
  | err r ↦ (s, event_refused r)
  | ok t ↦
      (after_detection t (detect ctx now pack e.execution_id t), Response.accepted_event e.event_id)
]

abbrev pub source_of : Incident → CapsuleSource
source_of i = record {
  incident_id = i.incident_id;
  trace_id = i.trace_id;
  execution_id = i.execution_id;
  capture_environment = "DEMO";
  captured_at = i.detected_at;
}

unfoldable pub capsule_input : String → String → IncidentDetail → CompileInput
capsule_input now capsule_id d = record {
  pack_ref = d.incident.system_pack;
  incident = d.incident;
  events = d.events;
  source = source_of d.incident;
  trigger = record { request_or_message = some Fields.end; sanitized_headers = some [] };
  capsule_id = capsule_id;
  graph_id = d.incident.graph_id;
  created_at = now;
}

abbrev pub capsule_id_of : String → String
capsule_id_of incident_id = "cap-" +++ incident_id +++ "-1"

-- The end of `postCapsule`, from the compilation on.
unfoldable pub store_compiled : Bool → Result CompileError ReplayCapsule → Store → Store × Response
unfolding capsule_error mapped_error
store_compiled ctx (err e) s = (s, capsule_error e)
store_compiled ctx (ok c) s = elim (put_capsule ctx c s) [
  | err e ↦ (s, mapped_error e)
  | ok t ↦ (t, Response.created_capsule c)
]

module _ (digest_of : ReplayCapsule → Result String String) where
  unfoldable pub compile_incident :
      Bool → String → SystemPack → String → IncidentDetail → Store → Store × Response
  unfolding store_compiled capsule_input
  compile_incident ctx now pack incident_id d s =
      elim (get_capsule ctx (capsule_id_of incident_id) s) [
        | ok existing ↦ (s, Response.created_capsule existing)
        | err e ↦
            store_compiled ctx
              (compile digest_of pack (capsule_input now (capsule_id_of incident_id) d)) s
      ]

  -- POST /v1/incidents/{incident_id}/capsules
  unfoldable pub post_capsule :
      Bool → String → Option SystemPack → String → Store → Store × Response
  unfolding compile_incident mapped_error
  post_capsule ctx now none incident_id s = (s, no_pack "replay capsule requires a System Pack")
  post_capsule ctx now (some pack) incident_id s = elim (get_incident_detail ctx incident_id s) [
    | err e ↦ (s, mapped_error e)
    | ok d ↦ compile_incident ctx now pack incident_id d s
  ]
