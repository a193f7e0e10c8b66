-- ===== src/Replay/Driven.antt =====
-- cmd/replay-worker/main.go: what a run that `processRun` returns is.
use clausa_lens.Prelude.{
  String, true, false, some, ◌≡◌, ◌⊎◌, refl, ap, arith, ok, string_eq, ◌+++◌, lookup, Bool-cases,
  Result-cases, inl, inr,
}
use clausa_lens.Contracts.RunEnums.{RunStatus, Outcome, run_status_eq, run_type_eq}
use clausa_lens.Contracts.IncidentEnums.{ErrorCode}
use clausa_lens.Contracts.Pack.{SystemPack}
use clausa_lens.Contracts.Run.{ReplayRun, OracleResult, is_terminal}
use clausa_lens.Contracts.Diff.{ReplayExecution}
use clausa_lens.Core.Store.{Store}
use clausa_lens.Core.Runs.{get_capsule}
use clausa_lens.Replay.Targets.{ended_run, completed_run, derive_outcome}
use clausa_lens.Replay.Lifecycle.{finalize_terminal, finalize_run, finalize_completed, finish_run}
use clausa_lens.Replay.Execute.{
  ExecutionConfig, ExecutionResult, ExecuteError, execute, terminal_of, invalid_digest,
  pack_validation, unsafe_replay, invalid_intervention, missing_run_id, teardown_failed,
  no_replay_events, execute_failed,
}
use clausa_lens.Replay.Stored.{finish_run-Kept}
use clausa_lens.Replay.Calls.{zero_graph, intervened, fixture_latency, World, Worker, load, finish}
use clausa_lens.Replay.Process.{
  persist_events, end_run, conclude, keep_result, execution_config, replay_run,
}

module _ (world : World) (host_of : String → String) where
  -- How the worker itself has ended a run that was open.
  pub data Verdict (w : Worker) (r : ReplayRun) : Type 0 where
    -- FAILED or BLOCKED, with an error and without an outcome.
    refused :
        (r.status ≡ RunStatus.failed) ⊎ (r.status ≡ RunStatus.blocked)
        → r.outcome ≡ Outcome.unset
        → Verdict w r
    -- COMPLETED by the execution of a capsule whose digest verifies, with the isolation that was
    -- observed and the outcome of what the worker's pack finds in the events that were observed.
    concluded :
        (pack : SystemPack) (cfg : ExecutionConfig) (result : ExecutionResult)
        (oracle : OracleResult)
        → r.status ≡ RunStatus.completed
        → cfg.run.run_id ≡ r.run_id
        → w.verify_digest cfg.capsule ≡ true
        → execute host_of cfg ≡ ok result
        → w.pack ≡ some pack
        → pack.evaluate_outcome
            (record { run = cfg.run; events = result.events; graph = zero_graph })
          ≡ ok oracle
        → r.isolation_evidence ≡ some result.isolation
        → r.failure_oracle_result ≡ some oracle
        → r.outcome ≡ derive_outcome r.run_type oracle.matched
        → Verdict w r

  -- The store holds the run under its id.
  abbrev pub Holds : String → ReplayRun → Store → Type 0
  Holds id r t = lookup id t.runs ≡ some r

  pub end_run-Verdict :
      (w : Worker) (run r : ReplayRun) (status : RunStatus) (code : ErrorCode) (message : String)
      (s t : Store)
      → is_terminal run.status ≡ false
      → (status ≡ RunStatus.failed) ⊎ (status ≡ RunStatus.blocked)
      → end_run world host_of run status code message s ≡ (t, ok r)
      → Holds run.run_id r t × Verdict w r
  unfolding end_run finalize_terminal ended_run
  end_run-Verdict w run r status code message s t still bad h =
      let s' = world.others finish s in
      let target = ended_run (world.now finish) status code message run in
      let done : finish_run host_of (world.cancelled finish) run target s' ≡ ok (t, r) =
        ground arith in
      let k = finish_run-Kept host_of (world.cancelled finish) run target r s' t still done in
      rw k.is (k.at, refused bad refl)

  conclude-Verdict :
      (w : Worker) (pack : SystemPack) (cfg : ExecutionConfig) (run r : ReplayRun)
      (result : ExecutionResult) (s t : Store)
      → is_terminal run.status ≡ false
      → cfg.run ≡ run
      → w.pack ≡ some pack
      → w.verify_digest cfg.capsule ≡ true
      → execute host_of cfg ≡ ok result
      → conclude world host_of pack run result s ≡ (t, ok r)
      → Holds run.run_id r t × Verdict w r
  unfolding conclude finalize_run finalize_completed completed_run
  conclude-Verdict w pack cfg run r result s t still same wired digest ran h =
      let x : ReplayExecution = record { run = run; events = result.events; graph = zero_graph } in
      elim (Result-cases (pack.evaluate_outcome x)) [
        | inr (e, fails) ↦
            end_run-Verdict w run r RunStatus.failed ErrorCode.oracle_unavailable
              ("replay worker: outcome evaluation failed: " +++ e) s t still (inl refl)
              (ground arith)
        | inl (oracle, judged) ↦
            let s' = world.others finish s in
            let target =
              completed_run (world.now finish) (derive_outcome run.run_type oracle.matched)
                (some oracle.effect_summary) (some oracle) result.isolation run in
            let done : finish_run host_of (world.cancelled finish) run target s' ≡ ok (t, r) =
              ground arith in
            let k = finish_run-Kept host_of (world.cancelled finish) run target r s' t still done in
            rw k.is (
              k.at,
              concluded pack cfg result oracle refl (ap (λ (q : ReplayRun). q.run_id) same) digest
                  ran wired (rw same judged) refl refl refl,
            )
      ]

  terminal_of-bad :
      (e : ExecuteError)
      → ((terminal_of e).0 ≡ RunStatus.failed) ⊎ ((terminal_of e).0 ≡ RunStatus.blocked)
  unfolding terminal_of
  terminal_of-bad invalid_digest = inr refl
  terminal_of-bad pack_validation = inr refl
  terminal_of-bad unsafe_replay = inr refl
  terminal_of-bad invalid_intervention = inr refl
  terminal_of-bad missing_run_id = inr refl
  terminal_of-bad teardown_failed = inr refl
  terminal_of-bad no_replay_events = inl refl
  terminal_of-bad execute_failed = inl refl

  keep_result-Verdict :
      (w : Worker) (pack : SystemPack) (cfg : ExecutionConfig) (run r : ReplayRun) (s t : Store)
      → is_terminal run.status ≡ false
      → cfg.run ≡ run
      → w.pack ≡ some pack
      → w.verify_digest cfg.capsule ≡ true
      → keep_result world host_of pack run s (execute host_of cfg) ≡ (t, ok r)
      → Holds run.run_id r t × Verdict w r
  unfolding keep_result
  keep_result-Verdict w pack cfg run r s t still same wired digest h =
      elim (Result-cases (execute host_of cfg)) [
        | inr (e, fails) ↦
            end_run-Verdict w run r (terminal_of e).0 (terminal_of e).1 "replay.Execute" s t still
              (terminal_of-bad e) (ground arith)
        | inl (result, ran) ↦
            let p = persist_events world 0 result.events s in
            elim (Result-cases p.1) [
              | inr (e, fails) ↦
                  end_run-Verdict w run r RunStatus.failed ErrorCode.internal_failure
                    "replay worker: persist replay event" p.0 t still (inl refl) (ground arith)
              | inl (done, kept) ↦
                  conclude-Verdict w pack cfg run r result p.0 t still same wired digest ran
                    (ground arith)
            ]
      ]

  pub replay_run-Verdict :
      (w : Worker) (pack : SystemPack) (run r : ReplayRun) (s t : Store)
      → w.pack ≡ some pack
      → is_terminal run.status ≡ false
      → replay_run world host_of w pack run s ≡ (t, ok r)
      → Holds run.run_id r t × Verdict w r
  unfolding replay_run
  replay_run-Verdict w pack run r s t wired still h =
      let s' = world.others load s in
      elim (Result-cases (get_capsule (world.cancelled load) run.capsule_id s')) [
        | inr (e, fails) ↦
            end_run-Verdict w run r RunStatus.failed ErrorCode.fixture_missing
              ("replay worker: capsule " +++ run.capsule_id +++ " not found") s' t still (inl refl)
              (ground arith)
        | inl (c, found) ↦ elim (Bool-cases (w.verify_digest c)) [
          | inr bad ↦
              end_run-Verdict w run r RunStatus.blocked ErrorCode.integrity_mismatch
                "replay worker: capsule integrity digest mismatch" s' t still (inr refl)
                (ground arith)
          | inl digest ↦
              elim (Result-cases (
                intervened pack c.replay_plan (fixture_latency c.dependency_fixtures) run.run_type
                  run.intervention)) [
                    | inr (e, fails) ↦
                        end_run-Verdict w run r RunStatus.blocked ErrorCode.intervention_invalid
                          ("replay worker: invalid intervention: " +++ e) s' t still (inr refl)
                          (ground arith)
                    | inl (effective, applied) ↦
                        keep_result-Verdict w pack
                          (execution_config world host_of w pack run c effective) run r s' t still
                          refl wired digest (ground arith)
                  ]
        ]
      ]
