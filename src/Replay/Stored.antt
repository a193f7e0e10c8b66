-- ===== src/Replay/Stored.antt =====
-- internal/replay/replay.go: what a successful `FinalizeRun` leaves in the store.
use clausa_lens.Prelude.{
  String, Bool, true, false, Option, none, some, ◌≡◌, ◌⊎◌, refl, ap, arith, ok, string_eq, lookup,
  insert, lookup-insert, eq_refl, inl, inr, Result-cases,
}
use clausa_lens.Contracts.RunEnums.{RunStatus, Outcome, run_status_eq}
use clausa_lens.Contracts.Incident.{RunError}
use clausa_lens.Contracts.Isolation.{IsolationEvidence}
use clausa_lens.Contracts.Capsule.{EffectSummary}
use clausa_lens.Contracts.Run.{ReplayRun, OracleResult, is_terminal, can_transition}
use clausa_lens.Contracts.RunCheck.{validate_run}
use clausa_lens.Core.Store.{Store}
use clausa_lens.Core.Runs.{transition_run}
use clausa_lens.Core.Ready.{transition_run-Replaces}
use clausa_lens.Replay.Isolation.{validate_isolation}
use clausa_lens.Replay.Targets.{failed_run, completed_run}
use clausa_lens.Replay.Lifecycle.{finish_run, finalize_completed, finalize_run}
use clausa_lens.Replay.Safety.{Isolated, validate_isolation-Isolated}

module _ (host_of : String → String) where
  -- What the store holds after the end of an open run.
  pub record Kept (run target r : ReplayRun) (t : Store) : Type 0 where
    pub is : r ≡ target
    pub valid : validate_run host_of target ≡ ok tt
    pub legal : can_transition run.status target.status ≡ true
    pub at : lookup target.run_id t.runs ≡ some target

  pub finish_run-Kept :
      (ctx : Bool) (run target r : ReplayRun) (s t : Store)
      → is_terminal run.status ≡ false
      → finish_run host_of ctx run target s ≡ ok (t, r)
      → Kept run target r t
  unfolding finish_run
  finish_run-Kept ctx run target r s t still h =
      elim (Result-cases (transition_run host_of ctx run.status target s)) [
        | inr (e, fails) ↦ absurd (ground arith)
        | inl (u, moved) ↦
            let x = transition_run-Replaces host_of ctx run.status target s u moved in
            let same : u ≡ t = ground arith in
            let becomes : t.runs ≡ insert target.run_id target s.runs =
              rw same at (ap (λ (q : Store). q.runs) x.becomes) in
            record {
              is = ground arith;
              valid = x.valid;
              legal = x.legal;
              at = rw becomes (rw lookup-insert (rw (eq_refl target.run_id) refl));
            }
      ]

  -- How an open run has ended.
  pub record Ended (run r : ReplayRun) (t : Store) : Type 0 where
    pub at : lookup run.run_id t.runs ≡ some r
    pub valid : validate_run host_of r ≡ ok tt
    pub legal : can_transition run.status r.status ≡ true
    pub result :
        ((r.status ≡ RunStatus.failed) × (r.outcome ≡ Outcome.unset))
        ⊎ ((r.status ≡ RunStatus.completed)
            × ((i : IsolationEvidence) × (r.isolation_evidence ≡ some i) × Isolated host_of i))

  -- When `FinalizeRun` succeeds for a run that has not ended, the store holds under the run's id the run
  -- that it returns, which is valid and follows the run's status legally: FAILED without an outcome, or
  -- COMPLETED with isolation evidence that shows an isolated run.
  pub finalize_run-Ended :
      (ctx : Bool) (now : String) (run : ReplayRun) (outcome : Outcome)
      (effects : Option EffectSummary) (oracle : Option OracleResult)
      (isolation : Option IsolationEvidence) (error : Option RunError) (s t : Store) (r : ReplayRun)
      → is_terminal run.status ≡ false
      → finalize_run host_of ctx now run outcome effects oracle isolation error s ≡ ok (t, r)
      → Ended run r t
  unfolding finalize_run finalize_completed failed_run completed_run
  finalize_run-Ended ctx now run outcome effects oracle isolation (some e) s t r still h =
      let k = finish_run-Kept ctx run (failed_run now e run) r s t still h in
      rw k.is (record { at = k.at; valid = k.valid; legal = k.legal; result = inl (refl, refl) })
  finalize_run-Ended ctx now run outcome effects oracle none none s t r still h = absurd (cc h)
  finalize_run-Ended ctx now run outcome effects oracle (some i) none s t r still h =
      let safe : validate_isolation host_of i ≡ ok tt = ground arith in
      let done : finish_run host_of ctx run (completed_run now outcome effects oracle i run) s
          ≡ ok (t, r) =
        ground arith in
      let k =
        finish_run-Kept ctx run (completed_run now outcome effects oracle i run) r s t still done in
      rw k.is (record {
        at = k.at;
        valid = k.valid;
        legal = k.legal;
        result = inr (refl, (i, refl, validate_isolation-Isolated host_of i safe));
      })
