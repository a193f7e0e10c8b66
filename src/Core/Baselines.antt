-- ===== src/Core/Baselines.antt =====
-- internal/core: what the invariant says of one stored run.
use clausa_lens.Prelude.{String, true, none, some, ◌≡◌, arith, ok, string_eq, lookup, eq_sound}
use clausa_lens.Contracts.RunEnums.{
  RunType, RunStatus, Outcome, run_type_eq, run_status_eq, outcome_eq,
}
use clausa_lens.Contracts.Run.{ReplayRun}
use clausa_lens.Contracts.RunCheck.{validate_run, verdict_passes}
use clausa_lens.Core.Store.{Store}
use clausa_lens.Core.Runs.{eligible_baseline}
use clausa_lens.Core.Steps.{Reached}
use clausa_lens.Core.Reach.{Reached-RunsWellFormed}

-- What a what-if run `r` needs of its baseline `b`.
pub record Allows (r b : ReplayRun) : Type 0 where
  pub kind : b.run_type ≡ RunType.baseline
  pub status : b.status ≡ RunStatus.completed
  pub outcome : b.outcome ≡ Outcome.reproduced
  pub isolated : verdict_passes b.isolation_evidence ≡ true
  pub capsule_id : b.capsule_id ≡ r.capsule_id
  pub capsule_hash : b.capsule_hash ≡ r.capsule_hash
  pub unchanged : b.intervention ≡ none

eligible_baseline-Allows : (r b : ReplayRun) → eligible_baseline r b ≡ true → Allows r b
unfolding eligible_baseline
eligible_baseline-Allows r b h = record {
  kind = ground arith;
  status = ground arith;
  outcome = ground arith;
  isolated = ground arith;
  capsule_id = eq_sound b.capsule_id r.capsule_id (ground arith);
  capsule_hash = eq_sound b.capsule_hash r.capsule_hash (ground arith);
  unchanged = ground arith;
}

module _ (host_of : String → String) where
  -- A run that stands in a reachable store, resets included, passes the contract's validator and stands
  -- under its own id.
  pub Reached-valid :
      {s : Store} (id : String) {r : ReplayRun}
      → Reached host_of s
      → lookup id s.runs ≡ some r
      → (r.run_id ≡ id) × (validate_run host_of r ≡ ok tt)
  Reached-valid id {r} reached at =
      let w = Reached-RunsWellFormed host_of reached in (w.keyed id r at, w.valid id r at)

  -- A what-if run that stands in a reachable store, whatever happened since it was created, has its
  -- baseline in the store: a BASELINE run of the same capsule and digest, with no intervention, that is
  -- COMPLETED and REPRODUCED with passing isolation evidence.
  pub Reached-baseline :
      {s : Store} (id : String) {r : ReplayRun}
      → Reached host_of s
      → lookup id s.runs ≡ some r
      → r.run_type ≡ RunType.what_if
      → (b : ReplayRun) × (lookup r.baseline_run_id s.runs ≡ some b) × Allows r b
  Reached-baseline id {r} reached at kind =
      let w = Reached-RunsWellFormed host_of reached in
      let (b, there, fits) = w.baseline id r at kind in
      (b, there, eligible_baseline-Allows r b fits)
