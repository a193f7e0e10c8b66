-- ===== src/Checkout/Fixtures.antt =====
-- internal/systempack/checkout/fixtures.go: the fixtures and the plan of a capsule. The SHA-256 of the
-- empty ledger's content is a parameter.
use clausa_lens.Prelude.{
  ℕ, String, ◌||◌, Option, none, some, List, [], ◌∷◌, ◌++◌, ◌!=◌, int_eq, ℤ, pos, negsuc, ◌<ℤ◌,
  Result, ok, err, Dict, lookup, ◌+++◌, decimal_text, map, if◌then◌else◌,
}
use clausa_lens.Contracts.EventEnums.{EventType, OperationKind, event_type_eq, operation_kind_eq}
use clausa_lens.Contracts.IncidentEnums.{SanitizationStatus}
use clausa_lens.Contracts.Values.{Value, str_val, field, end, as_int}
use clausa_lens.Contracts.Event.{ExecutionEvent}
use clausa_lens.Contracts.Capsule.{StateFixture, DependencyFixture, ReplayPlan}
use clausa_lens.Contracts.Pack.{FixtureSet}
use clausa_lens.Contracts.Run.{OracleResult}
use clausa_lens.Checkout.Oracle.{evaluate, quick_matches, select_operation}

configured : Option (Dict Value) → Option ℤ
configured none = none
configured (some m) = elim (lookup "configured_latency_ms" m) [ none ↦ none | some v ↦ as_int v ]

or_later : Option ℤ → ℤ → ℤ
or_later none later = later
or_later (some ms) later = ms

-- The first payment START whose latency is an integer, or 350.
unfoldable pub observed_latency : List ExecutionEvent → ℤ
unfolding configured or_later
observed_latency [] = pos 350
observed_latency (e ∷ es) =
    let later = observed_latency es in
    if e.event_type != EventType.start || e.operation.kind != OperationKind.dependency
    then later
    else or_later (configured e.attributes) later

attempts_of : Result String OracleResult → ℤ
attempts_of (ok r) =
    if pos 0 <ℤ r.effect_summary.payment_attempt_count
    then r.effect_summary.payment_attempt_count
    else pos 2
attempts_of (err e) = pos 2

unfoldable pub observed_attempts : List ExecutionEvent → ℤ
unfolding attempts_of
observed_attempts events = attempts_of (evaluate events)

-- `%d` at an int
unfoldable pub int_text : ℤ → String
int_text (pos n) = decimal_text n
int_text (negsuc n) = "-" +++ decimal_text (ℕ.suc n)

unfoldable pub fixtures_of : String → List ExecutionEvent → FixtureSet
fixtures_of ledger_digest events =
    let latency = observed_latency events in
    let limit = observed_attempts events in
    record {
      state_fixtures =
          record {
            fixture_id = "state-ledger-empty";
            kind = "POSTGRES_ROWSET";
            content_ref = "fixture://golden/ledger-empty-v1";
            content_digest = ledger_digest;
            sanitization_status = SanitizationStatus.pass;
            reset_strategy = "TRUNCATE_AND_LOAD";
          }
          ∷ [];
      dependency_fixtures =
          record {
            fixture_id = "dependency-payment-" +++ int_text latency +++ "ms";
            dependency = "payment_simulator";
            request_match = some (
                field "logical_operation_id" (str_val (select_operation quick_matches events)) end);
            response = some (field "status" (str_val "APPROVED") end);
            latency_ms = latency;
            failure_mode = "NONE";
            invocation_limit = if limit <ℤ pos 1 then pos 1 else limit;
          }
          ∷ [];
    }

-- On no events `selectLogicalOperationID` indexes an empty slice, and the call panics.
unfoldable pub extract_fixtures : String → List ExecutionEvent → Result String FixtureSet
unfolding fixtures_of
extract_fixtures ledger_digest [] = err "index out of range"
extract_fixtures ledger_digest (e ∷ es) = ok (fixtures_of ledger_digest (e ∷ es))

unfoldable pub build_replay_plan : FixtureSet → ReplayPlan
build_replay_plan fixtures = record {
  entrypoint = "gateway.checkout";
  required_components = "gateway" ∷ "checkout" ∷ "payment" ∷ "ledger" ∷ [];
  fixture_load_order = some (
      map (λ (f : StateFixture). f.fixture_id) fixtures.state_fixtures
      ++ map (λ (f : DependencyFixture). f.fixture_id) fixtures.dependency_fixtures);
  reset_strategy = "GOLDEN_RESET_V1";
}
