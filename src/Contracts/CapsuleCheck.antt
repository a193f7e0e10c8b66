-- ===== src/Contracts/CapsuleCheck.antt =====
-- internal/contracts/contracts.go: `ReplayCapsule.Validate`, one function for each run of tests.
use clausa_lens.Prelude.{
  String, Bool, false, ◌&&◌, ◌||◌, not, List, [], ◌∷◌, is_some, is_nil, is_sha256, has_prefix,
  length, ◌==◌, ◌!=◌, string_eq, int_eq, nat_eq, list_eq, pos, ◌<ℤ◌, Result, Check, ok, reject,
  ◌>>◌, ◌>>=◌, check_all,
}
use clausa_lens.Contracts.IncidentEnums.{SanitizationStatus, sanitization_status_eq}
use clausa_lens.Contracts.Time.{valid_utc_time}
use clausa_lens.Contracts.Values.{valid_json_object}
use clausa_lens.Contracts.Text.{contract_version, nonempty_strings}
use clausa_lens.Contracts.Graph.{seen_text}
use clausa_lens.Contracts.Isolation.{credential_replay_only, elements}
use clausa_lens.Contracts.Capsule.{
  CapsuleSource, StateFixture, DependencyFixture, SafetyPolicy, ReplayCapsule, InterventionSpec,
  effect_summary_eq, intervention_spec_beq, payment_latency_spec,
}

unfoldable pub check_source : CapsuleSource → Check
check_source s =
    reject
      (s.incident_id == ""
        || s.trace_id == ""
        || s.execution_id == ""
        || s.capture_environment != "DEMO"
        || not (valid_utc_time s.captured_at))
      "invalid capsule source"

unfoldable pub check_header : ReplayCapsule → Check
unfolding check_source
check_header c = do
  reject
      (c.schema_version != contract_version
        || c.capsule_id == ""
        || c.graph_id == ""
        || not (valid_utc_time c.created_at))
      "missing or invalid replay capsule field"
  check_source c.source
  reject
      (c.system_pack.id == ""
        || c.system_pack.version == ""
        || c.system_pack.interface_version != contract_version)
      "invalid system pack"
  reject
      (not (valid_json_object c.trigger.request_or_message)
        || not (is_some c.trigger.sanitized_headers)
        || is_nil c.event_ids
        || not (nonempty_strings c.event_ids))
      "invalid capsule trigger or event_ids"

-- The loops over the fixtures return the fixture ids seen.
unfoldable pub check_state_fixtures : List String → List StateFixture → Result String (List String)
check_state_fixtures ids [] = ok ids
check_state_fixtures ids (f ∷ fs) =
    reject
      (f.fixture_id == ""
        || seen_text f.fixture_id ids
        || f.kind != "POSTGRES_ROWSET"
        || not (has_prefix f.content_ref "fixture://")
        || not (is_sha256 f.content_digest)
        || f.sanitization_status != SanitizationStatus.pass
        || f.reset_strategy != "TRUNCATE_AND_LOAD")
      "invalid state fixture"
    >> check_state_fixtures (f.fixture_id ∷ ids) fs

unfoldable pub check_dependency_fixtures :
    List String → List DependencyFixture → Result String (List String)
check_dependency_fixtures ids [] = ok ids
check_dependency_fixtures ids (f ∷ fs) =
    reject
      (f.fixture_id == ""
        || seen_text f.fixture_id ids
        || f.dependency != "payment_simulator"
        || not (valid_json_object f.request_match)
        || not (valid_json_object f.response)
        || f.latency_ms <ℤ pos 0
        || f.failure_mode != "NONE"
        || f.invocation_limit <ℤ pos 1)
      "invalid dependency fixture"
    >> check_dependency_fixtures (f.fixture_id ∷ ids) fs

unfoldable pub check_fixtures : ReplayCapsule → Result String (List String)
check_fixtures c =
    reject (is_nil c.state_fixtures || is_nil c.dependency_fixtures) "fixture arrays are required"
    >> check_state_fixtures [] c.state_fixtures
    >>= λ ids. check_dependency_fixtures ids c.dependency_fixtures

unfoldable pub check_load_order : List String → List String → Check
check_load_order ids order = do
  check_all (λ id. reject (not (seen_text id ids)) "fixture_load_order contains unknown fixture")
      order
  reject (length order != length ids) "fixture_load_order must contain every fixture exactly once"

unfoldable pub check_plan : ReplayCapsule → Check
check_plan c =
    reject
      (c.timing_policy.clock_tolerance_ms != pos 5
        || c.timing_policy.timeout_ms != pos 200
        || c.replay_plan.entrypoint != "gateway.checkout"
        || c.replay_plan.required_components != "gateway" ∷ "checkout" ∷ "payment" ∷ "ledger" ∷ []
        || not (is_some c.replay_plan.fixture_load_order)
        || c.replay_plan.reset_strategy != "GOLDEN_RESET_V1")
      "invalid replay timing or plan"

unfoldable pub is_only_intervention : List InterventionSpec → Bool
is_only_intervention [] = false
is_only_intervention (s ∷ []) = intervention_spec_beq s payment_latency_spec
is_only_intervention (s ∷ t ∷ ss) = false

unfoldable pub check_oracle : ReplayCapsule → Check
unfolding is_only_intervention
check_oracle c = do
  reject
      (c.failure_oracle.id != "duplicate_ledger_effect"
        || c.failure_oracle.version != "1.0.0"
        || not c.failure_oracle.expected_match
        || c.failure_oracle.expected_effect_summary
          != record { payment_attempt_count = pos 2; ledger_commit_count = pos 2 })
      "invalid failure oracle"
  reject (not (is_only_intervention c.allowed_interventions)) "invalid allowed interventions"

unfoldable pub check_safety : SafetyPolicy → Check
check_safety s = do
  reject
      (s.policy_version != contract_version
        || s.sanitization_status != SanitizationStatus.pass
        || is_nil s.blocked_destinations
        || not (nonempty_strings s.blocked_destinations)
        || not (is_some s.allowed_destinations)
        || s.credential_profile != credential_replay_only)
      "invalid safety policy"
  check_all
      (λ d.
        reject (d != "payment-simulator" && d != "replay-postgres")
          "allowed destination is not replay-only")
      (elements s.allowed_destinations)

unfoldable pub validate_capsule : ReplayCapsule → Check
validate_capsule c = do
  check_header c
  ids ← check_fixtures c
  check_plan c
  check_load_order ids (elements c.replay_plan.fixture_load_order)
  check_oracle c
  check_safety c.safety
  reject (c.integrity.algorithm != "SHA-256" || not (is_sha256 c.integrity.digest))
      "invalid capsule integrity"
