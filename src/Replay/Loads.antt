-- ===== src/Replay/Loads.antt =====
-- cmd/replay-worker/runner.go: the runner can load what a valid capsule asks for.
use clausa_lens.Prelude.{
  String, true, false, ◌||◌, not, some, List, [], ◌∷◌, All, any, is_nil, has, ◌==◌, ◌!=◌, string_eq,
  list_eq, ℤ, pos, ◌<ℤ◌, ◌≡◌, ◌⊎◌, refl, arith, inl, inr, ok, reject, check_all, Dict, lookup,
  eq_sound, Result-cases, Option-cases,
}
use clausa_lens.Contracts.Graph.{seen_text}
use clausa_lens.Contracts.Isolation.{elements}
use clausa_lens.Contracts.Capsule.{ReplayCapsule, StateFixture, DependencyFixture}
use clausa_lens.Contracts.CapsuleCheck.{
  validate_capsule, check_fixtures, check_state_fixtures, check_plan,
}
use clausa_lens.Contracts.CapsuleFacts.{validate_capsule-ReplayOnly}
use clausa_lens.Demo.Ledger
use clausa_lens.Demo.Payment.{set_latency_ms}
use clausa_lens.Capsule.Replayable.{capsule_fixtures, valid_plan}
use clausa_lens.Replay.Runner.{
  Services, index_fixtures, state_id, dependency_id, load_fixture, load_order, load_fixtures,
  validate_plan, required,
}
use clausa_lens.Replay.FixtureIndex.{
  Loadable, Simulated, index_fixtures-All, index_fixtures-has, check_state_fixtures-Loadable,
  check_dependency_fixtures-Simulated,
}

nothing_found : {F P : Type 0} (id : String) (f : F) → lookup id [] ≡ some f → P
unfolding lookup
nothing_found id f h = absurd (cc h)

-- What the loop over the load order needs of the two indexes.
record Ready (states : Dict StateFixture) (dependencies : Dict DependencyFixture) : Type 0 where
  loadable : (id : String) (f : StateFixture) → lookup id states ≡ some f → Loadable f
  simulated : (id : String) (f : DependencyFixture) → lookup id dependencies ≡ some f → Simulated f

-- A ledger without effects stays so, since only resets are made.
load_order-succeeds :
    (states : Dict StateFixture) (dependencies : Dict DependencyFixture) (ids : List String)
    (s : Services)
    → Ready states dependencies
    → All (λ id. (has id states ≡ true) ⊎ (has id dependencies ≡ true)) ids
    → s.ledger ≡ Ledger.new_ledger
    → (t : Services) × (load_order states dependencies ids s ≡ ok t)
      × (t.ledger ≡ Ledger.new_ledger)
unfolding load_order load_fixture Ledger.reset Ledger.new_ledger
load_order-succeeds states dependencies [] s r known empty = (s, refl, empty)
load_order-succeeds states dependencies (id ∷ ids) s r (one, known) empty =
    elim (Option-cases (lookup id states)) [
      | inr (f, at) ↦
          let t = record s { ledger = Ledger.reset s.ledger } in
          let (u, loads, clean) = load_order-succeeds states dependencies ids t r known refl in
          let step : load_fixture (lookup id states) (lookup id dependencies) s ≡ ok t =
            rw at (rw (r.loadable id f at) refl) in
          (u, rw (step, load_order) loads, clean)
      | inl none_there ↦ elim (Option-cases (lookup id dependencies)) [
        | inl none_here ↦ absurd (ground arith)
        | inr (f, at) ↦
            let t = record s { payment = set_latency_ms f.latency_ms s.payment } in
            let (u, loads, clean) = load_order-succeeds states dependencies ids t r known empty in
            let step : load_fixture (lookup id states) (lookup id dependencies) s ≡ ok t =
              rw none_there (rw at (rw (r.simulated id f at) refl)) in
            (u, rw (step, load_order) loads, clean)
      ]
    ]

-- The runner's plan check and its loading of the fixtures, as they end.
pub record Loaded (c : ReplayCapsule) (latency : ℤ) (s t : Services) : Type 0 where
  pub planned : validate_plan c.replay_plan (capsule_fixtures c) ≡ ok tt
  pub loads : load_fixtures false c.replay_plan (capsule_fixtures c) latency s ≡ ok t
  pub empty : t.ledger ≡ Ledger.new_ledger
  pub latency_set : t.payment.latency_ms ≡ latency

all_components :
    check_all (λ c. reject (not (any (λ a. c == a) required)) "unsupported component") required
    ≡ ok tt
all_components = refl

simulators_pass :
    (fs : List DependencyFixture)
    → All Simulated fs
    → check_all
        (λ (f : DependencyFixture).
          reject (f.dependency != "payment_simulator") "unsupported dependency")
        fs
      ≡ ok tt
simulators_pass [] h = refl
simulators_pass (f ∷ fs) h = rw h.0 (simulators_pass fs h.1)

check_plan-plan :
    (c : ReplayCapsule)
    → check_plan c ≡ ok tt
    → (c.replay_plan.entrypoint ≡ "gateway.checkout")
      × (c.replay_plan.required_components ≡ required)
unfolding check_plan
check_plan-plan c h = (eq_sound _ _ (ground arith), eq_sound _ _ (ground arith))

fixtures_given :
    (c : ReplayCapsule) (found : List String)
    → check_fixtures c ≡ ok found
    → (is_nil c.state_fixtures || is_nil c.dependency_fixtures) ≡ false
unfolding check_fixtures
fixtures_given c found h = ground arith

valid_validate_plan :
    (c : ReplayCapsule) (found : List String)
    → check_plan c ≡ ok tt
    → check_fixtures c ≡ ok found
    → All Simulated c.dependency_fixtures
    → validate_plan c.replay_plan (capsule_fixtures c) ≡ ok tt
unfolding validate_plan
valid_validate_plan c found h k simulated =
    let (entry, components) = check_plan-plan c h in
    rw
      (
        entry,
        components,
        all_components,
        fixtures_given c found k,
        simulators_pass c.dependency_fixtures simulated,
      )
      refl

known_everywhere :
    (c : ReplayCapsule) (found : List String)
    → check_fixtures c ≡ ok found
    → All Loadable c.state_fixtures
      × All Simulated c.dependency_fixtures
      × ((id : String)
          → seen_text id found ≡ true
          → (any (λ (f : StateFixture). id == state_id f) c.state_fixtures ≡ true)
            ⊎ (any (λ (f : DependencyFixture). id == dependency_id f) c.dependency_fixtures ≡ true))
unfolding check_fixtures
known_everywhere c found h = elim (Result-cases (check_state_fixtures [] c.state_fixtures)) [
  | inr (e, fails) ↦ absurd (ground arith)
  | inl (ids, checked) ↦
      let (loadable, states) = check_state_fixtures-Loadable [] ids c.state_fixtures checked in
      let (simulated, dependencies) =
        check_dependency_fixtures-Simulated ids found c.dependency_fixtures (ground arith) in
      (
        loadable,
        simulated,
        λ id k. elim (dependencies id k) [
          | inr new ↦ inr new
          | inl old ↦ elim (states id old) [ inl none_yet ↦ cc | inr there ↦ inl there ]
        ],
      )
]

All-found :
    (c : ReplayCapsule) (found order : List String)
    → check_fixtures c ≡ ok found
    → All (λ id. seen_text id found ≡ true) order
    → All
        (λ id.
          (has id (index_fixtures state_id [] c.state_fixtures) ≡ true)
          ⊎ (has id (index_fixtures dependency_id [] c.dependency_fixtures) ≡ true))
        order
All-found c found [] h k = tt
All-found c found (id ∷ order) h (one, rest) = (
  elim ((known_everywhere c found h).2 id one) [
    | inl state ↦ inl (index_fixtures-has state_id id [] c.state_fixtures (inr state))
    | inr dependency ↦
        inr (index_fixtures-has dependency_id id [] c.dependency_fixtures (inr dependency))
  ],
  All-found c found order h rest,
)

-- The runner accepts the plan of every capsule that the contract's validator accepts, and loads its
-- fixtures in its load order without an error, whatever the services held, for any latency that is not
-- negative: the ledger is then empty, and the payment has the run's latency.
pub valid_capsule-Loaded :
    (c : ReplayCapsule) (latency : ℤ) (s : Services)
    → validate_capsule c ≡ ok tt
    → (latency <ℤ pos 0) ≡ false
    → (t : Services) × Loaded c latency s t
unfolding load_fixtures Ledger.reset Ledger.new_ledger set_latency_ms
valid_capsule-Loaded c latency s valid positive =
    let facts = validate_capsule-ReplayOnly c valid in
    let (loadable, simulated, known) = known_everywhere c facts.fixtures facts.fixture_ids in
    let states = index_fixtures state_id [] c.state_fixtures in
    let dependencies = index_fixtures dependency_id [] c.dependency_fixtures in
    let ready : Ready states dependencies = record {
      loadable =
          index_fixtures-All state_id Loadable [] c.state_fixtures (λ id f h. nothing_found id f h)
            loadable;
      simulated =
          index_fixtures-All dependency_id Simulated [] c.dependency_fixtures
            (λ id f h. nothing_found id f h) simulated;
    } in
    let (t, loads, clean) =
      load_order-succeeds states dependencies (elements c.replay_plan.fixture_load_order)
        (record s { ledger = Ledger.reset s.ledger }) ready
        (All-found c facts.fixtures (elements c.replay_plan.fixture_load_order) facts.fixture_ids
          facts.known)
        refl in
    (
      record t { payment = set_latency_ms latency t.payment },
      record {
        planned =
            valid_validate_plan c facts.fixtures (valid_plan c valid) facts.fixture_ids simulated;
        loads = rw (positive, loads) refl;
        empty = clean;
        latency_set = refl;
      },
    )
