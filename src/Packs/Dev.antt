-- ===== src/Packs/Dev.antt =====
-- internal/packregistry/devpack.go: the pack for development.
use clausa_lens.Prelude.{
  ℕ, zero, suc, String, Bool, true, false, Option, none, some, [], ◌∷◌, ◌++◌, length, map, ◌==◌,
  ◌-ℤ◌, string_eq, ℤ, pos, Result, ok, err, ◌+++◌, decimal_text, if◌then◌else◌,
}
use clausa_lens.Contracts.Text.{contract_version}
use clausa_lens.Contracts.RunEnums.{RunType, run_type_eq}
use clausa_lens.Contracts.IncidentEnums.{SanitizationStatus}
use clausa_lens.Contracts.Values.{field, end, str_val}
use clausa_lens.Contracts.Incident.{SystemPackRef}
use clausa_lens.Contracts.Capsule.{
  EffectSummary, StateFixture, DependencyFixture, ReplayPlan, payment_latency_spec,
}
use clausa_lens.Contracts.Run.{Intervention, OracleResult, ReplayRun}
use clausa_lens.Contracts.Diff.{ReplayDiff, ReplayExecution}
use clausa_lens.Contracts.Pack.{SystemPack, FixtureSet}
use clausa_lens.Checkout.Align.{EventSets}
use clausa_lens.Packs.Align.{align_events}

unfoldable pub dev_descriptor : SystemPackRef
dev_descriptor = record {
  id = "checkout_duplicate_effect_dev";
  version = "0.0.0-dev";
  interface_version = contract_version;
}

unfoldable pub dev_oracle : Bool → ℤ → ℤ → String → OracleResult
dev_oracle matched attempts commits explanation = record {
  oracle = record { id = "duplicate_ledger_effect"; version = "1.0.0" };
  matched = matched;
  effect_summary = record { payment_attempt_count = attempts; ledger_commit_count = commits };
  required_evidence_event_ids =
      some ("evt-timeout" ∷ "evt-retry" ∷ "evt-ledger-1" ∷ "evt-ledger-2" ∷ []);
  explanation = explanation;
}

-- `strings.Repeat("b", 64)`
abbrev repeat : ℕ → String → String
repeat zero s = ""
repeat (suc n) s = s +++ repeat n s

unfoldable pub dev_fixtures : FixtureSet
dev_fixtures = record {
  state_fixtures =
      record {
        fixture_id = "state-ledger-empty";
        kind = "POSTGRES_ROWSET";
        content_ref = "fixture://golden/ledger-empty-v1";
        content_digest = repeat 64 "b";
        sanitization_status = SanitizationStatus.pass;
        reset_strategy = "TRUNCATE_AND_LOAD";
      }
      ∷ [];
  dependency_fixtures =
      record {
        fixture_id = "dependency-payment-350ms";
        dependency = "payment_simulator";
        request_match = some (field "logical_operation_id" (str_val "checkout-8271") end);
        response = some (field "status" (str_val "APPROVED") end);
        latency_ms = pos 350;
        failure_mode = "NONE";
        invocation_limit = pos 2;
      }
      ∷ [];
}

unfoldable pub dev_plan : FixtureSet → ReplayPlan
dev_plan fixtures = record {
  entrypoint = "gateway.checkout";
  required_components = "gateway" ∷ "checkout" ∷ "payment" ∷ "ledger" ∷ [];
  fixture_load_order = some (
      map (λ (f : StateFixture). f.fixture_id) fixtures.state_fixtures
      ++ map (λ (f : DependencyFixture). f.fixture_id) fixtures.dependency_fixtures);
  reset_strategy = "GOLDEN_RESET_V1";
}

unfoldable pub dev_outcome : ReplayRun → OracleResult
unfolding dev_oracle
dev_outcome run =
    if run.run_type == RunType.what_if
    then dev_oracle false (pos 1) (pos 1)
        "dev pack: what-if completed before timeout; no retry or duplicate effect"
    else dev_oracle true (pos 2) (pos 2)
        "dev pack: baseline reproduced the timeout-driven duplicate ledger effect"

abbrev effect_summary_for : Option EffectSummary → EffectSummary → EffectSummary
effect_summary_for none fallback = fallback
effect_summary_for (some s) fallback = s

abbrev oracle_result_for : Option OracleResult → OracleResult → OracleResult
oracle_result_for none fallback = fallback
oracle_result_for (some o) fallback = o

abbrev dev_summary : EventSets → String
dev_summary sets =
    "Dev pack aligned "
    +++ decimal_text (length sets.matched)
    +++ " matched, "
    +++ decimal_text (length sets.added)
    +++ " added, "
    +++ decimal_text (length sets.removed)
    +++ " removed, "
    +++ decimal_text (length sets.changed)
    +++ " changed."

dev_diff : String → ReplayExecution → ReplayExecution → Intervention → EventSets → ReplayDiff
unfolding dev_oracle
dev_diff diff_id b c intervention sets =
    let before =
      effect_summary_for b.run.effect_summary
        (record { payment_attempt_count = pos 2; ledger_commit_count = pos 2 }) in
    let after =
      effect_summary_for c.run.effect_summary
        (record { payment_attempt_count = pos 1; ledger_commit_count = pos 1 }) in
    let baseline =
      oracle_result_for b.run.failure_oracle_result
        (dev_oracle true (pos 2) (pos 2) "dev pack: baseline reproduced the duplicate effect") in
    let comparison = oracle_result_for c.run.failure_oracle_result (
      dev_oracle false (pos 1) (pos 1)
        "dev pack: what-if completed before timeout, no duplicate effect") in
    record {
      schema_version = contract_version;
      diff_id = diff_id;
      baseline_run_id = b.run.run_id;
      comparison_run_id = c.run.run_id;
      alignment_version = contract_version;
      intervention = intervention;
      baseline_oracle_result = record baseline { effect_summary = before };
      comparison_oracle_result = record comparison { effect_summary = after };
      matched_events = some sets.matched;
      added_event_ids = some sets.added;
      removed_event_ids = some sets.removed;
      changed_events = some sets.changed;
      first_meaningful_divergence = none;
      baseline_effect_summary = before;
      comparison_effect_summary = after;
      effect_delta = record {
        payment_attempt_count = after.payment_attempt_count -ℤ before.payment_attempt_count;
        ledger_commit_count = after.ledger_commit_count -ℤ before.ledger_commit_count;
      };
      evidence_summary = dev_summary sets;
      limitations = some ("Dev pack only; not production evidence." ∷ []);
    }

compare_with :
    Option Intervention → String → ReplayExecution → ReplayExecution → Result String ReplayDiff
unfolding dev_diff
compare_with none diff_id b c =
    err "dev pack: comparison run requires exactly one intervention to build a diff"
compare_with (some intervention) diff_id b c =
    ok (dev_diff diff_id b c intervention (align_events b.events c.events))

unfoldable pub dev_compare : String → ReplayExecution → ReplayExecution → Result String ReplayDiff
unfolding compare_with
dev_compare diff_id b c = compare_with c.run.intervention diff_id b c

unfoldable pub dev_pack : SystemPack
unfolding dev_descriptor dev_oracle dev_fixtures dev_plan dev_outcome dev_compare
dev_pack = record {
  descriptor = dev_descriptor;
  normalize = λ raw.
      err
        "dev pack: Normalize is not provided; capture translation is the real pack's responsibility";
  detect_incident =
      λ events. ok (dev_oracle true (pos 2) (pos 2) "dev pack: duplicate-effect oracle matched");
  extract_fixtures = λ incident events. ok dev_fixtures;
  build_replay_plan = λ incident fixtures. ok (dev_plan fixtures);
  validate_capsule = λ c. [];
  allowed_interventions = payment_latency_spec ∷ [];
  apply_intervention = λ plan i. ok plan;
  compare = dev_compare;
  evaluate_outcome = λ (x : ReplayExecution). ok (dev_outcome x.run);
}
