-- ===== src/Replay/Safety.antt =====
-- internal/replay: the safety boundary of `Execute` and the test of isolation evidence.
use clausa_lens.Prelude.{
  String, true, false, not, none, some, List, [], ◌∷◌, ◌≡◌, ◌⊎◌, refl, arith, ok, reject, is_nil,
  all, any, All, ◌==◌, string_eq, check_all, eq_sound, inl, inr, Option-cases,
}
use clausa_lens.Contracts.RunEnums.{RunType, verdict_eq, run_type_eq}
use clausa_lens.Contracts.Event.{ExecutionEvent}
use clausa_lens.Contracts.Isolation.{
  IsolationEvidence, DependencyInteraction, isolation_failed, elements, is_replay_datastore,
  credential_replay_only, replay_only_host,
}
use clausa_lens.Contracts.Run.{Intervention, ReplayRun}
use clausa_lens.Contracts.Capsule.{ReplayCapsule}
use clausa_lens.Replay.Isolation.{validate_isolation}
use clausa_lens.Replay.Execute.{
  ExecutionConfig, ExecutionResult, execute, validate_replay_safety, allowed_intervention,
  replay_only_plan,
}

-- The intervention of a run is one that the capsule allows, on a what-if run alone.
pub data Permitted (capsule : ReplayCapsule) (run : ReplayRun) : Type 0 where
  unchanged : run.run_type ≡ RunType.baseline → run.intervention ≡ none → Permitted capsule run
  allowed :
      (i : Intervention)
      → run.run_type ≡ RunType.what_if
      → run.intervention ≡ some i
      → allowed_intervention capsule.allowed_interventions i ≡ true
      → Permitted capsule run

-- A run of a valid type: `ReplayRun.Validate` refuses the others.
abbrev pub Typed : ReplayRun → Type 0
Typed r = (r.run_type ≡ RunType.baseline) ⊎ (r.run_type ≡ RunType.what_if)

safety_Permitted :
    (cfg : ExecutionConfig)
    → validate_replay_safety cfg.capsule cfg.run cfg.plan cfg.fixtures ≡ ok tt
    → Typed cfg.run
    → Permitted cfg.capsule cfg.run
unfolding validate_replay_safety
safety_Permitted cfg h (inl baseline) = elim (Option-cases cfg.run.intervention) [
  | inl absent ↦ unchanged baseline absent
  | inr (i, there) ↦ ground arith
]
safety_Permitted cfg h (inr what_if) = elim (Option-cases cfg.run.intervention) [
  | inl absent ↦ ground arith
  | inr (i, there) ↦ allowed i what_if there (ground arith)
]

safety_plan :
    (cfg : ExecutionConfig)
    → validate_replay_safety cfg.capsule cfg.run cfg.plan cfg.fixtures ≡ ok tt
    → (replay_only_plan cfg.plan cfg.fixtures ≡ true)
      × ((cfg.capsule.safety.credential_profile == credential_replay_only) ≡ true)
unfolding validate_replay_safety
safety_plan cfg h = ground arith

refused_none :
    (ds : List String) (message : String)
    → check_all (λ d. reject (not (is_replay_datastore d)) message) ds ≡ ok tt
    → any (λ d. not (is_replay_datastore d)) ds ≡ false
refused_none [] message h = refl
refused_none (d ∷ ds) message h = ground (arith, refused_none ds message)

module _ (host_of : String → String) where
  -- What `ValidateIsolation` shows of evidence that it accepts.
  pub record Isolated (i : IsolationEvidence) : Type 0 where
    pub unfailed : isolation_failed i ≡ false
    pub credentials : i.credential_profile ≡ credential_replay_only
    pub simulators :
        All
          (λ (s : DependencyInteraction). replay_only_host host_of s.destination ≡ true)
          (elements i.simulator_interactions)

  simulators_only :
      (xs : List DependencyInteraction) (message : String)
      → check_all
          (λ (s : DependencyInteraction).
            reject (not (replay_only_host host_of s.destination)) message)
          xs
        ≡ ok tt
      → All (λ (s : DependencyInteraction). replay_only_host host_of s.destination ≡ true) xs
  simulators_only [] message h = tt
  simulators_only (x ∷ xs) message h = ground (arith, simulators_only xs message)

  -- Evidence that `ValidateIsolation` accepts is not failed by the contract's own test of it: no failed
  -- policy or teardown, no denied interaction, no datastore but a replay one; and its credentials are
  -- replay-only, and each simulator interaction went to a replay-only host.
  pub validate_isolation-Isolated :
      (i : IsolationEvidence) → validate_isolation host_of i ≡ ok tt → Isolated i
  unfolding validate_isolation isolation_failed
  validate_isolation-Isolated i h = record {
    unfailed = ground (
      arith,
      refused_none (elements i.datastore_destinations)
          "isolation: non-replay datastore destination",
    );
    credentials = eq_sound i.credential_profile credential_replay_only (ground arith);
    simulators =
        simulators_only (elements i.simulator_interactions)
          "isolation: non-replay simulator destination" (ground arith);
  }

  -- What a successful `Execute` has checked, and what it returns.
  pub record Executed (cfg : ExecutionConfig) (result : ExecutionResult) : Type 0 where
    pub digest : cfg.verify_digest cfg.capsule ≡ true
    pub accepted : is_nil (cfg.pack_issues cfg.capsule) ≡ true
    pub permitted : Permitted cfg.capsule cfg.run
    pub credentials : cfg.capsule.safety.credential_profile ≡ credential_replay_only
    pub plan : replay_only_plan cfg.plan cfg.fixtures ≡ true
    pub isolated : Isolated result.isolation
    pub evidence : is_nil result.events ≡ false
    pub run_id :
        all (λ (e : ExecutionEvent). e.replay_run_id == cfg.run.run_id) result.events ≡ true

  execute_parts :
      (cfg : ExecutionConfig) (result : ExecutionResult)
      → execute host_of cfg ≡ ok result
      → (cfg.verify_digest cfg.capsule ≡ true)
        × (is_nil (cfg.pack_issues cfg.capsule) ≡ true)
        × (validate_replay_safety cfg.capsule cfg.run cfg.plan cfg.fixtures ≡ ok tt)
        × (validate_isolation host_of result.isolation ≡ ok tt)
        × (is_nil result.events ≡ false)
        × (all (λ (e : ExecutionEvent). e.replay_run_id == cfg.run.run_id) result.events ≡ true)
  unfolding execute
  execute_parts cfg result h = ground arith

  -- Whatever the runner does, when `Execute` returns a result for a BASELINE or WHAT_IF run, the digest
  -- and the pack accepted the capsule, the plan and the fixtures are replay-only, the intervention is
  -- absent on a baseline and allowed by the capsule on a what-if, the isolation evidence is that of an
  -- isolated run, and there are events, all of which carry the run's id.
  pub execute-Executed :
      (cfg : ExecutionConfig) (result : ExecutionResult)
      → Typed cfg.run
      → execute host_of cfg ≡ ok result
      → Executed cfg result
  execute-Executed cfg result typed h =
      let (digest, accepted, safe, isolated, evidence, ids) = execute_parts cfg result h in
      record {
        digest = digest;
        accepted = accepted;
        permitted = safety_Permitted cfg safe typed;
        credentials =
            eq_sound cfg.capsule.safety.credential_profile credential_replay_only
              (safety_plan cfg safe).1;
        plan = (safety_plan cfg safe).0;
        isolated = validate_isolation-Isolated result.isolation isolated;
        evidence = evidence;
        run_id = ids;
      }
