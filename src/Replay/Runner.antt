-- ===== src/Replay/Runner.antt =====
-- cmd/replay-worker/runner.go: the replay sink, and what the runner checks and loads before it drives
-- the demo services.
use Prim.Native.Char.{code}
use clausa_lens.Prelude.{
  String, Bool, ◌||◌, not, Option, none, some, List, [], ◌∷◌, ◌++◌, any, is_nil, nat_beq, ◌==◌,
  ◌!=◌, string_eq, ℤ, pos, ◌<ℤ◌, Result, ok, err, reject, ◌>>◌, check_all, Dict, insert, lookup,
  ◌+++◌, if◌then◌else◌,
}
use clausa_lens.Contracts.Event.{ExecutionEvent, validate_event}
use clausa_lens.Contracts.Isolation.{elements}
use clausa_lens.Contracts.Capsule.{ReplayPlan, StateFixture, DependencyFixture}
use clausa_lens.Contracts.Pack.{FixtureSet}
use clausa_lens.Demo.Ledger
use clausa_lens.Demo.Ledger.{Ledger}
use clausa_lens.Demo.Payment.{Payment, set_latency_ms}

-- `strings.TrimPrefix`, by what is left of a text that has the prefix.
after_prefix : String → String → Option String
after_prefix String.[] s = some s
after_prefix (String.◌∷◌ c p) String.[] = none
after_prefix (String.◌∷◌ c p) (String.◌∷◌ d s) =
    let rest = after_prefix p s in if nat_beq (code c) (code d) then rest else none

abbrev trimmed : String → Option String → String
trimmed s none = s
trimmed s (some rest) = rest

unfoldable pub trim_prefix : String → String → String
unfolding after_prefix
trim_prefix s prefix = trimmed s (after_prefix prefix s)

pub record ReplaySink : Type 0 where
  pub run_id : String
  pub events : List ExecutionEvent
  pub emit_err : Option String

unfoldable pub replay_id : String → String → String
unfolding trim_prefix
replay_id run_id id = "evt-" +++ run_id +++ "-" +++ trim_prefix id "evt-"

unfoldable pub stamped : String → ExecutionEvent → ExecutionEvent
unfolding replay_id
stamped run_id e = record e {
  replay_run_id = run_id;
  event_id = replay_id run_id e.event_id;
  parent_event_id = if e.parent_event_id != "" then replay_id run_id e.parent_event_id else "";
}

abbrev keep_event :
    ReplaySink → ExecutionEvent → Result String (Unit {0}) → ReplaySink × Result String (Unit {0})
keep_event s e (ok tt) = (record s { events = s.events ++ e ∷ [] }, ok tt)
keep_event s e (err m) = (record s { emit_err = some m }, err m)

-- `Emit` of the replay sink.
unfoldable pub emit_replay : ExecutionEvent → ReplaySink → ReplaySink × Result String (Unit {0})
unfolding stamped
emit_replay e s = let stamp = stamped s.run_id e in keep_event s stamp (validate_event stamp)

abbrev pub required : List String
required = "gateway" ∷ "checkout" ∷ "payment" ∷ "ledger" ∷ []

unfoldable pub validate_plan : ReplayPlan → FixtureSet → Result String (Unit {0})
validate_plan plan fixtures = do
  reject (plan.entrypoint != "gateway.checkout") "unsupported entrypoint"
  check_all (λ c. reject (not (any (λ a. c == a) required)) "unsupported component")
      plan.required_components
  reject (is_nil fixtures.state_fixtures || is_nil fixtures.dependency_fixtures)
      "expected state and dependency fixtures"
  check_all
      (λ (f : DependencyFixture).
        reject (f.dependency != "payment_simulator") "unsupported dependency")
      fixtures.dependency_fixtures

-- `stateByID` and `depByID`: the last fixture of an id wins.
unfoldable pub index_fixtures : {F : Type 0} → (F → String) → Dict F → List F → Dict F
index_fixtures id_of index [] = index
index_fixtures id_of index (f ∷ fs) = index_fixtures id_of (insert (id_of f) f index) fs

abbrev pub state_id : StateFixture → String
state_id f = f.fixture_id

abbrev pub dependency_id : DependencyFixture → String
dependency_id f = f.fixture_id

-- The services that a replay drives.
pub record Services : Type 0 where
  pub ledger : Ledger
  pub payment : Payment

unfoldable pub load_fixture :
    Option StateFixture → Option DependencyFixture → Services → Result String Services
load_fixture (some f) dependency s =
    reject (f.kind != "POSTGRES_ROWSET" || f.reset_strategy != "TRUNCATE_AND_LOAD")
      "unsupported state fixture"
    >> ok (record s { ledger = Ledger.reset s.ledger })
load_fixture none (some f) s =
    reject (f.dependency != "payment_simulator") "unsupported dependency fixture"
    >> ok (record s { payment = set_latency_ms f.latency_ms s.payment })
load_fixture none none s = err "unknown fixture in load order"

-- The loop over the load order.
unfoldable pub load_order :
    Dict StateFixture → Dict DependencyFixture → List String → Services → Result String Services
unfolding load_fixture
load_order states dependencies [] s = ok s
load_order states dependencies (id ∷ ids) s =
    elim (load_fixture (lookup id states) (lookup id dependencies) s) [
      | err m ↦ err m
      | ok t ↦ load_order states dependencies ids t
    ]

abbrev with_latency : ℤ → Result String Services → Result String Services
with_latency ms (ok s) = ok (record s { payment = set_latency_ms ms s.payment })
with_latency ms (err m) = err m

unfoldable pub load_fixtures :
    Bool → ReplayPlan → FixtureSet → ℤ → Services → Result String Services
unfolding load_order index_fixtures
load_fixtures ctx plan fixtures latency s = do
  reject ctx "context cancelled"
  reject (latency <ℤ pos 0) "negative effective latency"
  with_latency latency (
      load_order (index_fixtures state_id [] fixtures.state_fixtures)
        (index_fixtures dependency_id [] fixtures.dependency_fixtures)
        (elements plan.fixture_load_order) (record s { ledger = Ledger.reset s.ledger }))
