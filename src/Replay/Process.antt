-- ===== src/Replay/Process.antt =====
-- cmd/replay-worker/main.go: `processRun`, over the store that the other processes share. The answer
-- beside an error is not modelled: the caller reads a run only where the error is nil.
use clausa_lens.Prelude.{
  ℕ, suc, String, not, none, some, List, [], ◌∷◌, ◌==◌, ◌!=◌, string_eq, ℤ, Result, ok, err,
  is_some, ◌+++◌, if◌then◌else◌,
}
use clausa_lens.Contracts.RunEnums.{RunType, RunStatus, run_type_eq, run_status_eq, outcome_eq}
use clausa_lens.Contracts.IncidentEnums.{ErrorCode}
use clausa_lens.Contracts.Event.{ExecutionEvent}
use clausa_lens.Contracts.Capsule.{ReplayCapsule, ReplayPlan}
use clausa_lens.Contracts.Pack.{SystemPack}
use clausa_lens.Contracts.Run.{ReplayRun, is_terminal}
use clausa_lens.Core.Store.{Store, StoreError}
use clausa_lens.Core.Events.{ingest_event}
use clausa_lens.Core.Runs.{get_run, get_capsule}
use clausa_lens.Core.Lease.{claim_run, renew_lease}
use clausa_lens.Replay.Targets.{derive_outcome}
use clausa_lens.Replay.Lifecycle.{advance_run, finalize_run, finalize_terminal}
use clausa_lens.Replay.Execute.{
  ExecutionConfig, ExecutionResult, ExecuteError, execute, terminal_of,
}
use clausa_lens.Replay.Calls.{
  read, claim, reread, baseline, advance, renew, load, finish, persist, World, Worker, worker_error,
  store_error, lifecycle_error, Processed, settled, completed, authorize_baseline, fixture_latency,
  zero_graph, intervened,
}

module _ (world : World) where
  -- The loop over the observed events, which stops at the first that the store refuses.
  unfoldable pub persist_events :
      ℕ → List ExecutionEvent → Store → Store × Result StoreError (Unit {0})
  persist_events i [] s = (s, ok tt)
  persist_events i (e ∷ es) s =
      let s' = world.others (persist i) s in
      elim (ingest_event (world.cancelled (persist i)) e s') [
        | err m ↦ (s', err m)
        | ok t ↦ persist_events (suc i) es t
      ]

  module _ (host_of : String → String) where
    unfoldable pub end_run : ReplayRun → RunStatus → ErrorCode → String → Store → Processed
    end_run run status code message s =
        let s' = world.others finish s in
        settled s' (
          finalize_terminal host_of (world.cancelled finish) (world.now finish) run status code
            message s')

    -- From the outcome of the oracle on.
    unfoldable pub conclude : SystemPack → ReplayRun → ExecutionResult → Store → Processed
    conclude pack run result s =
        elim (pack.evaluate_outcome
          (record { run = run; events = result.events; graph = zero_graph })) [
            | err e ↦
                end_run run RunStatus.failed ErrorCode.oracle_unavailable
                  ("replay worker: outcome evaluation failed: " +++ e) s
            | ok oracle ↦
                let s' = world.others finish s in
                completed s' (
                  finalize_run host_of (world.cancelled finish) (world.now finish) run
                    (derive_outcome run.run_type oracle.matched) (some oracle.effect_summary)
                    (some oracle) (some result.isolation) none s')
          ]

    -- From the execution of the capsule on.
    unfoldable pub keep_result :
        SystemPack → ReplayRun → Store → Result ExecuteError ExecutionResult → Processed
    unfolding end_run conclude
    keep_result pack run s (err e) =
        end_run run (terminal_of e).0 (terminal_of e).1 "replay.Execute" s
    keep_result pack run s (ok result) =
        let (t, kept) = persist_events 0 result.events s in
        elim kept [
          | err e ↦
              end_run run RunStatus.failed ErrorCode.internal_failure
                "replay worker: persist replay event" t
          | ok done ↦ conclude pack run result t
        ]

    unfoldable pub execution_config :
        Worker → SystemPack → ReplayRun → ReplayCapsule → ReplayPlan × ℤ → ExecutionConfig
    execution_config w pack run c (plan, latency) = record {
      capsule = c;
      run = run;
      plan = plan;
      fixtures = record {
        state_fixtures = c.state_fixtures;
        dependency_fixtures = c.dependency_fixtures;
      };
      latency_ms = latency;
      verify_digest = w.verify_digest;
      pack_issues = pack.validate_capsule;
      runner = w.runner;
    }

    replay_capsule : Worker → SystemPack → ReplayRun → Store → ReplayCapsule → Processed
    unfolding end_run keep_result fixture_latency execution_config
    replay_capsule w pack run s c =
        if not (w.verify_digest c)
        then end_run run RunStatus.blocked ErrorCode.integrity_mismatch
            "replay worker: capsule integrity digest mismatch" s
        else elim (intervened pack c.replay_plan (fixture_latency c.dependency_fixtures)
            run.run_type run.intervention) [
              | err e ↦
                  end_run run RunStatus.blocked ErrorCode.intervention_invalid
                    ("replay worker: invalid intervention: " +++ e) s
              | ok effective ↦
                  keep_result pack run s (execute host_of (execution_config w pack run c effective))
            ]

    -- A RUNNING run, from the read of its capsule on.
    unfoldable pub replay_run : Worker → SystemPack → ReplayRun → Store → Processed
    unfolding end_run replay_capsule
    replay_run w pack run s =
        let s' = world.others load s in
        elim (get_capsule (world.cancelled load) run.capsule_id s') [
          | err e ↦
              end_run run RunStatus.failed ErrorCode.fixture_missing
                ("replay worker: capsule " +++ run.capsule_id +++ " not found") s'
          | ok c ↦ replay_capsule w pack run s' c
        ]

    -- `_ = store.RenewLease(…)`: an error is ignored.
    abbrev pub renewed : Store → Result StoreError Store → Store
    renewed s (ok t) = t
    renewed s (err e) = s

    abbrev pub allowed_to_start : ReplayRun → Store → Result String (Unit {0})
    allowed_to_start run s =
        if run.run_type == RunType.what_if
        then authorize_baseline run (get_run (world.cancelled baseline) run.baseline_run_id s)
        else ok tt

    -- A VALIDATING run: the baseline's gate, RUNNING and the lease.
    unfoldable pub begin_run : Worker → SystemPack → ReplayRun → Store → Processed
    unfolding end_run replay_run
    begin_run w pack run s =
        let s1 = world.others baseline s in
        elim (allowed_to_start run s1) [
          | err e ↦ end_run run RunStatus.blocked ErrorCode.intervention_invalid e s1
          | ok fine ↦
              let s2 = world.others advance s1 in
              elim (advance_run host_of (world.cancelled advance) (world.now advance) run
                RunStatus.running s2) [
                  | err e ↦ (s2, err (lifecycle_error e))
                  | ok (s3, running) ↦
                      let s4 = world.others renew s3 in
                      replay_run w pack running (
                        renewed s4 (
                          renew_lease (world.cancelled renew) (world.at renew) running.run_id
                            w.lease s4))
                ]
        ]

    -- By the status of the run that was read or claimed.
    unfoldable pub continue_run : Worker → SystemPack → ReplayRun → Store → Processed
    unfolding begin_run replay_run
    continue_run w pack run s =
        if run.status == RunStatus.validating
        then begin_run w pack run s
        else if run.status != RunStatus.running
        then (s, err (worker_error "replay worker: run is in unexpected status"))
        else replay_run w pack run s

    -- Where the claim of a CREATED run fails, the run that another worker has claimed is returned.
    unfoldable pub lost_claim : String → StoreError → Store → Processed
    lost_claim run_id e s =
        let s' = world.others reread s in
        elim (get_run (world.cancelled reread) run_id s') [
          | err missing ↦ (s', err (store_error e))
          | ok current ↦
              if current.status != RunStatus.created
              then (s', ok current)
              else (s', err (store_error e))
        ]

    claim_and_continue : Worker → SystemPack → String → Store → Processed
    unfolding continue_run lost_claim
    claim_and_continue w pack run_id s =
        let s' = world.others claim s in
        elim (claim_run (world.cancelled claim) (world.at claim) run_id w.lease s') [
          | err e ↦ lost_claim run_id e s'
          | ok (t, claimed) ↦ continue_run w pack claimed t
        ]

    drive : Worker → SystemPack → String → Store → Processed
    unfolding claim_and_continue continue_run
    drive w pack run_id s =
        let s' = world.others read s in
        elim (get_run (world.cancelled read) run_id s') [
          | err e ↦ (s', err (store_error e))
          | ok run ↦
              if is_terminal run.status
              then (s', ok run)
              else if run.status == RunStatus.created
              then claim_and_continue w pack run_id s'
              else continue_run w pack run s'
        ]

    unfoldable pub process_run : Worker → String → Store → Processed
    unfolding drive
    process_run w run_id s = elim w.pack [
      | none ↦ (s, err (worker_error "replay worker: no System Pack wired (set PACK_IMPL)"))
      | some pack ↦
          if not (is_some w.runner)
          then (s, err (worker_error "replay worker: no runner configured"))
          else drive w pack run_id s
    ]
