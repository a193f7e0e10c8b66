-- ===== src/Examples/Capsules.antt =====
-- A capsule as the checkout pack compiles it, and the facts of a valid one.
use clausa_lens.Prelude.{true, some, [], ◌∷◌, pos, ok, ◌≡◌, refl, is_sha256, is_blank}
use clausa_lens.Contracts.IncidentEnums.{SanitizationStatus}
use clausa_lens.Contracts.Time.{valid_utc_time, parse_time}
use clausa_lens.Contracts.Values.{end, field, str_val, valid_json_object}
use clausa_lens.Contracts.Text.{nonempty_strings}
use clausa_lens.Contracts.Capsule.{ReplayCapsule, payment_latency_spec}
use clausa_lens.Contracts.CapsuleCheck.{
  validate_capsule, check_header, check_source, check_fixtures, check_state_fixtures,
  check_dependency_fixtures, check_plan, check_load_order, check_oracle, check_safety,
  is_only_intervention,
}
use clausa_lens.Examples.Data.{noon, digest, two_effects}

abbrev pub capsule : ReplayCapsule
capsule = record {
  schema_version = "1.0";
  capsule_id = "cap-1";
  created_at = noon;
  source = record {
    incident_id = "inc-1";
    trace_id = "trace-1";
    execution_id = "exec-1";
    capture_environment = "DEMO";
    captured_at = noon;
  };
  system_pack = record { id = "checkout"; version = "1.0.0"; interface_version = "1.0" };
  trigger = record {
    request_or_message = some (field "checkout_id" (str_val "checkout-42") end);
    sanitized_headers = some [];
  };
  event_ids = "ev-1" ∷ [];
  graph_id = "graph-1";
  state_fixtures =
      record {
        fixture_id = "ledger";
        kind = "POSTGRES_ROWSET";
        content_ref = "fixture://ledger";
        content_digest = digest;
        sanitization_status = SanitizationStatus.pass;
        reset_strategy = "TRUNCATE_AND_LOAD";
      }
      ∷ [];
  dependency_fixtures =
      record {
        fixture_id = "payment";
        dependency = "payment_simulator";
        request_match = some end;
        response = some end;
        latency_ms = pos 350;
        failure_mode = "NONE";
        invocation_limit = pos 2;
      }
      ∷ [];
  timing_policy = record { clock_tolerance_ms = pos 5; timeout_ms = pos 200 };
  replay_plan = record {
    entrypoint = "gateway.checkout";
    required_components = "gateway" ∷ "checkout" ∷ "payment" ∷ "ledger" ∷ [];
    fixture_load_order = some ("ledger" ∷ "payment" ∷ []);
    reset_strategy = "GOLDEN_RESET_V1";
  };
  failure_oracle = record {
    id = "duplicate_ledger_effect";
    version = "1.0.0";
    expected_match = true;
    expected_effect_summary = two_effects;
  };
  allowed_interventions = payment_latency_spec ∷ [];
  safety = record {
    policy_version = "1.0";
    sanitization_status = SanitizationStatus.pass;
    blocked_destinations = "production" ∷ [];
    allowed_destinations = some ("payment-simulator" ∷ "replay-postgres" ∷ []);
    credential_profile = "replay-only";
  };
  integrity = record { algorithm = "SHA-256"; digest = digest };
}

pub capsule_valid : validate_capsule capsule ≡ ok tt
unfolding validate_capsule check_header check_source check_fixtures check_state_fixtures
    check_dependency_fixtures check_plan check_load_order check_oracle check_safety
    is_only_intervention valid_json_object nonempty_strings valid_utc_time parse_time is_sha256
    is_blank
capsule_valid = refl
