-- ===== src/Api/Respond.antt =====
-- cmd/core-api/main.go: what a handler answers, by the value that it writes as JSON, and the mapping of
-- errors to answers.
use clausa_lens.Prelude.{ℕ, String}
use clausa_lens.Contracts.IncidentEnums.{ErrorCode}
use clausa_lens.Contracts.Capsule.{ReplayCapsule}
use clausa_lens.Contracts.Run.{ReplayRun}
use clausa_lens.Contracts.Diff.{ReplayDiff}
use clausa_lens.Contracts.Reset.{ResetResult}
use clausa_lens.Core.Store.{StoreError}
use clausa_lens.Core.Incidents.{IncidentPage, IncidentDetail}
use clausa_lens.Capsule.Compile.{CompileError}

-- Each success has a status of its own: 202, 200, 200, 201, 202, 200, 201, 200 and 200. An error has
-- its status and code.
pub data Response : Type 0 where
  accepted_event : String → Response
  incidents : IncidentPage → Response
  incident : IncidentDetail → Response
  created_capsule : ReplayCapsule → Response
  accepted_run : ReplayRun → Response
  found_run : ReplayRun → Response
  created_diff : ReplayDiff → Response
  found_diff : ReplayDiff → Response
  reset_done : ResetResult → Response
  contract_error : ℕ → ErrorCode → String → Response

abbrev pub bad_request : Response
bad_request =
    Response.contract_error 400 ErrorCode.schema_invalid "request does not match the contract"

abbrev pub no_pack : String → Response
no_pack message = Response.contract_error 422 ErrorCode.pack_unavailable message

-- `writeMappedError`, which every caller gives no safety code.
unfoldable pub mapped_error : StoreError → Response
mapped_error StoreError.invalid_lifecycle =
    Response.contract_error 409 ErrorCode.schema_invalid "invalid lifecycle transition"
mapped_error StoreError.not_found =
    Response.contract_error 404 ErrorCode.schema_invalid "resource not found"
mapped_error StoreError.conflict = bad_request
mapped_error StoreError.internal =
    Response.contract_error 500 ErrorCode.internal_failure "internal failure"
mapped_error (StoreError.invalid_event e) =
    Response.contract_error 500 ErrorCode.internal_failure "internal failure"

-- `writeCapsuleError`
unfoldable pub capsule_error : CompileError → Response
capsule_error CompileError.not_ready =
    Response.contract_error 400 ErrorCode.schema_invalid "incident is not READY"
capsule_error CompileError.integrity_mismatch =
    Response.contract_error 422 ErrorCode.integrity_mismatch "replay capsule integrity mismatch"
capsule_error CompileError.pack_validation =
    Response.contract_error 422 ErrorCode.sanitization_failed
      "replay capsule failed pack validation"
capsule_error CompileError.invalid_capsule =
    Response.contract_error 500 ErrorCode.internal_failure "replay capsule could not be compiled"
capsule_error (CompileError.compile_failed e) =
    Response.contract_error 500 ErrorCode.internal_failure "replay capsule could not be compiled"
