-- ===== src/Api/Runs.antt =====
-- cmd/core-api/main.go: the handlers of runs, diffs and the reset, over the store and the counter of ids.
use clausa_lens.Prelude.{
  ℕ, suc, String, Bool, false, Option, none, some, pos, Result, ok, err, is_err, ◌+++◌,
  decimal_text, if◌then◌else◌,
}
use clausa_lens.Contracts.Text.{contract_version}
use clausa_lens.Contracts.IncidentEnums.{ErrorCode}
use clausa_lens.Contracts.Capsule.{ReplayCapsule}
use clausa_lens.Contracts.Run.{ReplayRun}
use clausa_lens.Contracts.Diff.{ReplayDiff, ReplayExecution, CreateRunRequest, CreateDiffRequest}
use clausa_lens.Contracts.DiffCheck.{validate_create_run, validate_create_diff}
use clausa_lens.Contracts.Reset.{ResetStatus, ResetRequest, ResetResult, validate_reset_request}
use clausa_lens.Core.Store as Core
use clausa_lens.Core.Store.{Store, StoreError, ResetCounts}
use clausa_lens.Core.Events.{events_for_run, graphs_for_run, RunGraphError}
use clausa_lens.Core.Runs.{get_capsule, put_run, get_run, put_diff}
use clausa_lens.Checkout.Align.{EventSets}
use clausa_lens.Differential.Build.{Sources, DiffError, build}
use clausa_lens.Replay.Lifecycle.{new_run}
use clausa_lens.Api.Respond.{Response, bad_request, no_pack, mapped_error}
use clausa_lens.Api.Detect.{wrapped}

-- `nextID`, a prefix with the next number of the process.
unfoldable pub next_id : String → ℕ → ℕ × String
next_id prefix n = (suc n, prefix +++ decimal_text (suc n))

-- What a request leaves: the counter of ids and the store, and its answer.
abbrev pub Served : Type 0
Served = ℕ × Store × Response

module _ (host_of : String → String) where
  abbrev put_new_run : Bool → ℕ → Result String ReplayRun → Store → Served
  put_new_run ctx n (err e) s = (n, s, bad_request)
  put_new_run ctx n (ok run) s = elim (put_run host_of ctx run s) [
    | err e ↦ (n, s, mapped_error e)
    | ok t ↦ (n, t, Response.accepted_run run)
  ]

  unfoldable pub run_capsule : Bool → ℕ → CreateRunRequest → ReplayCapsule → Store → Served
  unfolding next_id mapped_error
  run_capsule ctx n r c s =
      let (m, run_id) = next_id "run-" n in
      put_new_run ctx m
        (new_run host_of run_id ("exec-replay-" +++ run_id) c.capsule_id c.integrity.digest
          r.run_type r.baseline_run_id r.intervention (pos 1))
        s

  -- POST /v1/capsules/{capsule_id}/runs
  unfoldable pub post_run : Bool → ℕ → Option CreateRunRequest → String → Store → Served
  unfolding run_capsule mapped_error
  post_run ctx n none capsule_id s = (n, s, bad_request)
  post_run ctx n (some r) capsule_id s =
      if is_err (validate_create_run r)
      then (n, s, bad_request)
      else elim (get_capsule ctx capsule_id s) [
        | err e ↦ (n, s, mapped_error e)
        | ok c ↦ run_capsule ctx n r c s
      ]

-- `Align` of a pack, by the id of the diff, and `Compare` of one that is a `DiffBuilder`.
pub record Aligner : Type 0 where
  pub align : String → ReplayExecution → ReplayExecution → Result String EventSets
  pub compare : Option (String → ReplayExecution → ReplayExecution → Result String ReplayDiff)

abbrev run_graph_error : RunGraphError → DiffError
run_graph_error (RunGraphError.store_failed e) = DiffError.store_error e
run_graph_error (RunGraphError.graph_failed e) = DiffError.order_error e

abbrev comparing :
    String
    → Option (String → ReplayExecution → ReplayExecution → Result String ReplayDiff)
    → Option (ReplayExecution → ReplayExecution → Result String ReplayDiff)
comparing diff_id none = none
comparing diff_id (some compare) = some (compare diff_id)

-- `Build`'s sources are the store and the pack.
unfoldable pub sources_of : Bool → String → Aligner → Store → Sources
sources_of ctx diff_id pack s = record {
  get_run = λ id. wrapped DiffError.store_error (get_run ctx id s);
  events_for_run = λ r. wrapped DiffError.store_error (events_for_run ctx r s);
  graphs_for_run = λ r. wrapped run_graph_error (graphs_for_run ctx r s);
  align = pack.align diff_id;
  compare = comparing diff_id pack.compare;
}

-- An error that is none of the store's is an internal failure. So is here the read of a nil pointer, at
-- which the server drops the request.
abbrev diff_refused : DiffError → Response
diff_refused (DiffError.prerequisites m) =
    Response.contract_error 409 ErrorCode.schema_invalid "replay diff prerequisites not met"
diff_refused (DiffError.store_error e) = mapped_error e
diff_refused _ = mapped_error StoreError.internal

unfoldable pub store_diff : Bool → Result DiffError ReplayDiff → Store → Store × Response
unfolding mapped_error
store_diff ctx (err e) s = (s, diff_refused e)
store_diff ctx (ok d) s = elim (put_diff ctx d s) [
  | err e ↦ (s, mapped_error e)
  | ok t ↦ (t, Response.created_diff d)
]

unfoldable pub diff_runs : Bool → ℕ → Option Aligner → CreateDiffRequest → Store → Served
unfolding next_id store_diff sources_of
diff_runs ctx n none r s = (n, s, no_pack "differential analysis requires a System Pack")
diff_runs ctx n (some pack) r s =
    let (m, diff_id) = next_id "diff-" n in
    let (t, response) =
      store_diff ctx
        (build (sources_of ctx diff_id pack s) diff_id r.baseline_run_id r.comparison_run_id) s in
    (m, t, response)

-- POST /v1/diffs
unfoldable pub post_diff : Bool → ℕ → Option Aligner → Option CreateDiffRequest → Store → Served
unfolding diff_runs
post_diff ctx n pack none s = (n, s, bad_request)
post_diff ctx n pack (some r) s =
    if is_err (validate_create_diff r) then (n, s, bad_request) else diff_runs ctx n pack r s

unfoldable pub reset_result : ResetCounts → ResetResult
reset_result counts = record {
  schema_version = contract_version;
  reset_id = "reset-1";
  status = ResetStatus.completed;
  cleared_incident_count = pos counts.incidents;
  cleared_run_count = pos counts.runs;
  cleared_ledger_count = pos 0;
  fixture_version = "1.0.0";
  configured_latency_ms = pos 350;
  deduplication_enabled = false;
  next_logical_operation_id = "checkout-8271";
  error = none;
}

-- POST /v1/demo/reset
unfoldable pub post_reset : Bool → Option ResetRequest → Store → Store × Response
unfolding reset_result
post_reset ctx none s = (s, bad_request)
post_reset ctx (some r) s =
    if is_err (validate_reset_request r) then (s, bad_request) else elim (Core.reset ctx s) [
      | err e ↦ (s, Response.contract_error 500 ErrorCode.internal_failure "internal failure")
      | ok (t, counts) ↦ (t, Response.reset_done (reset_result counts))
    ]
