-- ===== src/Capsule/Replayable.antt =====
-- internal/capsule/capsule.go and internal/replay/executor.go: the executor lets a compiled capsule's
-- baseline run through to its runner.
use clausa_lens.Prelude.{
  String, Bool, true, none, List, [], ◌∷◌, is_nil, all, any, ◌==◌, string_eq, ◌≡◌, refl, arith,
  Result, ok, eq_sound, list_eq, Result-cases, inl, inr,
}
use clausa_lens.Contracts.RunEnums.{RunType, run_type_eq}
use clausa_lens.Contracts.Capsule.{ReplayCapsule, ReplayPlan, DependencyFixture}
use clausa_lens.Contracts.CapsuleCheck.{
  validate_capsule, check_fixtures, check_dependency_fixtures, check_plan, check_state_fixtures,
}
use clausa_lens.Contracts.CapsuleFacts.{validate_capsule-ReplayOnly}
use clausa_lens.Contracts.Pack.{SystemPack, FixtureSet}
use clausa_lens.Contracts.Run.{ReplayRun}
use clausa_lens.Replay.Execute.{validate_replay_safety, replay_only_plan, allowed_components}
use clausa_lens.Capsule.Compile.{CompileInput, compile, verify_digest}
use clausa_lens.Capsule.Compiled.{compile-Compiled}

abbrev pub capsule_fixtures : ReplayCapsule → FixtureSet
capsule_fixtures c = record {
  state_fixtures = c.state_fixtures;
  dependency_fixtures = c.dependency_fixtures;
}

check_dependency_fixtures-simulators :
    (ids found : List String) (fs : List DependencyFixture)
    → check_dependency_fixtures ids fs ≡ ok found
    → all (λ (f : DependencyFixture). f.dependency == "payment_simulator") fs ≡ true
unfolding check_dependency_fixtures
check_dependency_fixtures-simulators ids found [] h = refl
check_dependency_fixtures-simulators ids found (f ∷ fs) h =
    ground (arith, check_dependency_fixtures-simulators (f.fixture_id ∷ ids) found fs)

golden_components :
    (plan : ReplayPlan)
    → plan.required_components ≡ "gateway" ∷ "checkout" ∷ "payment" ∷ "ledger" ∷ []
    → all (λ c. any (λ a. c == a) allowed_components) plan.required_components ≡ true
golden_components plan h = rw h refl

check_fixtures-simulators :
    (c : ReplayCapsule) (found : List String)
    → check_fixtures c ≡ ok found
    → all (λ (f : DependencyFixture). f.dependency == "payment_simulator") c.dependency_fixtures
      ≡ true
unfolding check_fixtures
check_fixtures-simulators c found h =
    elim (Result-cases (check_state_fixtures [] c.state_fixtures)) [
      | inr (e, fails) ↦ absurd (ground arith)
      | inl (ids, checked) ↦
          check_dependency_fixtures-simulators ids found c.dependency_fixtures (ground arith)
    ]

check_plan-components :
    (c : ReplayCapsule)
    → check_plan c ≡ ok tt
    → c.replay_plan.required_components ≡ "gateway" ∷ "checkout" ∷ "payment" ∷ "ledger" ∷ []
unfolding check_plan
check_plan-components c h = eq_sound _ _ (ground arith)

pub valid_plan : (c : ReplayCapsule) → validate_capsule c ≡ ok tt → check_plan c ≡ ok tt
unfolding validate_capsule
valid_plan c h = elim (Result-cases (check_fixtures c)) [
  | inr (e, fails) ↦ absurd (ground arith)
  | inl (ids, found) ↦ ground arith
]

valid_replay_only :
    (c : ReplayCapsule)
    → validate_capsule c ≡ ok tt
    → replay_only_plan c.replay_plan (capsule_fixtures c) ≡ true
unfolding replay_only_plan
valid_replay_only c h =
    let facts = validate_capsule-ReplayOnly c h in
    rw (golden_components c.replay_plan (check_plan-components c (valid_plan c h)))
      (check_fixtures-simulators c facts.fixtures facts.fixture_ids)

-- What `Execute` asks before it calls the runner, of a run with the capsule's own plan and fixtures.
pub record Passes (verify : ReplayCapsule → Bool) (pack : SystemPack) (c : ReplayCapsule)
    (run : ReplayRun) : Type 0 where
  pub digest : verify c ≡ true
  pub accepted : is_nil (pack.validate_capsule c) ≡ true
  pub safe : validate_replay_safety c run c.replay_plan (capsule_fixtures c) ≡ ok tt

-- A capsule that `Compile` returns, by whatever pack, passes all that `Execute` asks before it calls the
-- runner, when a baseline run without an intervention replays it by its own plan and fixtures: its
-- digest verifies, the pack has no issue with it, and the safety boundary accepts it.
pub compile-Passes :
    (digest_of : ReplayCapsule → Result String String) (pack : SystemPack) (input : CompileInput)
    (c : ReplayCapsule) (run : ReplayRun)
    → compile digest_of pack input ≡ ok c
    → run.run_type ≡ RunType.baseline
    → run.intervention ≡ none
    → Passes (verify_digest digest_of) pack c run
unfolding validate_replay_safety
compile-Passes digest_of pack input c run h baseline plain =
    let compiled = compile-Compiled digest_of pack input c h in
    let facts = validate_capsule-ReplayOnly c compiled.valid in
    record {
      digest = compiled.digest;
      accepted = compiled.accepted;
      safe =
          rw (baseline, plain, valid_replay_only c compiled.valid, facts.credentials)
            (ground arith);
    }
