-- ===== src/Api/Reads.antt =====
-- cmd/core-api/main.go: the handlers that only read. The query of the incident list is what
-- `incidentListQuery` reads off the URL, and `none` where it refuses it.
use clausa_lens.Prelude.{String, Bool, Option, none, some, Result, ok, err}
use clausa_lens.Core.Store.{Store, StoreError}
use clausa_lens.Core.Incidents.{IncidentListQuery, list_incidents, get_incident_detail}
use clausa_lens.Core.Runs.{get_run, get_diff}
use clausa_lens.Api.Respond.{Response, bad_request, mapped_error}

abbrev answered : {A : Type 0} → (A → Response) → Result StoreError A → Response
answered answer (ok a) = answer a
answered answer (err e) = mapped_error e

-- GET /v1/incidents
unfoldable pub answer_incidents : Bool → Option IncidentListQuery → Store → Response
unfolding mapped_error
answer_incidents ctx none s = bad_request
answer_incidents ctx (some q) s = answered Response.incidents (list_incidents ctx q s)

-- GET /v1/incidents/{incident_id}
unfoldable pub answer_incident : Bool → String → Store → Response
unfolding mapped_error
answer_incident ctx id s = answered Response.incident (get_incident_detail ctx id s)

-- GET /v1/runs/{run_id}
unfoldable pub answer_run : Bool → String → Store → Response
unfolding mapped_error
answer_run ctx id s = answered Response.found_run (get_run ctx id s)

-- GET /v1/diffs/{diff_id}
unfoldable pub answer_diff : Bool → String → Store → Response
unfolding mapped_error
answer_diff ctx id s = answered Response.found_diff (get_diff ctx id s)
