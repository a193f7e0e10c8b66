-- ===== src/Replay/Outcome.antt =====
-- internal/replay and internal/contracts: what a COMPLETED run shows.
use clausa_lens.Prelude.{
  String, Bool, true, false, none, some, ◌≡◌, ◌≢◌, ◌⊎◌, arith, ok, ◌==◌, string_eq, inl, inr,
  Option-cases,
}
use clausa_lens.Contracts.RunEnums.{
  RunType, RunStatus, Outcome, Verdict, run_status_eq, run_type_eq, outcome_eq, verdict_eq,
}
use clausa_lens.Contracts.Isolation.{
  IsolationEvidence, isolation_failed, verdict_matches, validate_isolation_evidence,
}
use clausa_lens.Contracts.Run.{ReplayRun, OracleResult}
use clausa_lens.Contracts.RunCheck.{
  validate_run, check_times, check_result, check_completed, check_outcome_set, check_outcome_oracle,
  check_run_type,
}
use clausa_lens.Contracts.RunFacts.{validate_run-Accepted}
use clausa_lens.Replay.Targets.{derive_outcome}

-- The outcome that the validator lets stand is the derived one, or INCONCLUSIVE.
outcome_derived :
    (kind : RunType) (o : Outcome) (matched : Bool)
    → check_outcome_set kind o ≡ ok tt
    → check_outcome_oracle kind o matched ≡ ok tt
    → ((kind ≡ RunType.baseline) ⊎ (kind ≡ RunType.what_if))
    → (o ≡ Outcome.inconclusive) ⊎ (o ≡ derive_outcome kind matched)
unfolding check_outcome_set check_outcome_oracle derive_outcome
outcome_derived kind o matched h k known = ground arith

known_type :
    (kind : RunType) (b : String) (i : _)
    → check_run_type kind b i ≡ ok tt
    → (kind ≡ RunType.baseline) ⊎ (kind ≡ RunType.what_if)
unfolding check_run_type
known_type kind b i h = ground arith

passing_isolated :
    (host_of : String → String) (i : IsolationEvidence)
    → validate_isolation_evidence host_of i ≡ ok tt
    → (i.verdict == Verdict.pass) ≡ true
    → isolation_failed i ≡ false
unfolding validate_isolation_evidence verdict_matches
passing_isolated host_of i h k = ground arith

module _ (host_of : String → String) where
  -- What a completed run that passes the validator shows.
  pub record Completed (r : ReplayRun) : Type 0 where
    pub isolation : IsolationEvidence
    pub evidence : r.isolation_evidence ≡ some isolation
    pub isolated : isolation_failed isolation ≡ false
    pub oracle : OracleResult
    pub judged : r.failure_oracle_result ≡ some oracle
    pub outcome :
        (r.outcome ≡ Outcome.inconclusive) ⊎ (r.outcome ≡ derive_outcome r.run_type oracle.matched)
    pub started : r.started_at ≢ ""
    pub unfailed : r.error ≡ none

  started_time :
      (r : ReplayRun) → check_times r ≡ ok tt → r.status ≡ RunStatus.completed → r.started_at ≢ ""
  unfolding check_times
  started_time r h k = ground (arith, string_eq.beq_iff r.started_at "")

  checked :
      (r : ReplayRun)
      → check_result host_of r ≡ ok tt
      → r.status ≡ RunStatus.completed
      → check_completed host_of r ≡ ok tt
  unfolding check_result
  checked r h k = ground arith

  judged_parts :
      (r : ReplayRun) (i : IsolationEvidence) (o : OracleResult)
      → r.isolation_evidence ≡ some i
      → r.failure_oracle_result ≡ some o
      → check_completed host_of r ≡ ok tt
      → (validate_isolation_evidence host_of i ≡ ok tt)
        × ((i.verdict == Verdict.pass) ≡ true)
        × (check_outcome_set r.run_type r.outcome ≡ ok tt)
        × (check_outcome_oracle r.run_type r.outcome o.matched ≡ ok tt)
        × (r.error ≡ none)
  unfolding check_completed
  judged_parts r i o h k c = ground arith

  present :
      (r : ReplayRun)
      → check_completed host_of r ≡ ok tt
      → ((i : IsolationEvidence) × (r.isolation_evidence ≡ some i))
        × ((o : OracleResult) × (r.failure_oracle_result ≡ some o))
  unfolding check_completed
  present r c = elim (Option-cases r.isolation_evidence) [
    | inl gone ↦ ground arith
    | inr evidence ↦ elim (Option-cases r.failure_oracle_result) [
      | inl gone ↦ ground arith
      | inr oracle ↦ (evidence, oracle)
    ]
  ]

  -- A COMPLETED run that the contract's validator accepts has started, has no error and has isolation
  -- evidence that shows no failure, recomputed from the evidence itself; its outcome is INCONCLUSIVE or
  -- the one that `deriveOutcome` gives of its run type and its oracle's answer.
  pub completed_run_derived :
      (r : ReplayRun)
      → validate_run host_of r ≡ ok tt
      → r.status ≡ RunStatus.completed
      → Completed r
  completed_run_derived r valid done =
      let a = validate_run-Accepted host_of r valid in
      let c = checked r a.result done in
      let ((i, evidence), (o, judged)) = present r c in
      let (sound, pass, in_set, agrees, unfailed) = judged_parts r i o evidence judged c in
      record {
        isolation = i;
        evidence = evidence;
        isolated = passing_isolated host_of i sound pass;
        oracle = o;
        judged = judged;
        outcome =
            outcome_derived r.run_type r.outcome o.matched in_set agrees
              (known_type r.run_type r.baseline_run_id r.intervention a.kind);
        started = started_time r a.times done;
        unfailed = unfailed;
      }
