-- ===== src/Replay/Worker.antt =====
-- cmd/replay-worker/main.go: `reclaimOrphans`, which ends the runs whose lease is over.
use clausa_lens.Prelude.{
  ℕ, String, Bool, List, [], ◌∷◌, All, ◌≡◌, refl, arith, ok, err, Result, ◌>>=◌,
}
use clausa_lens.Contracts.RunEnums.{RunStatus}
use clausa_lens.Contracts.Run.{ReplayRun}
use clausa_lens.Contracts.RunCheck.{validate_run}
use clausa_lens.Core.Store.{Store, StoreError}
use clausa_lens.Core.Lease.{reclaim_expired_runs}
use clausa_lens.Replay.Lifecycle.{finalize_orphan}
use clausa_lens.Replay.Endings.{unstarted_orphan_stays}

module _ (host_of : String → String) where
  -- The loop over the expired runs; a run that cannot be ended is passed over.
  unfoldable pub end_orphans : Bool → String → List ReplayRun → Store → Store × List String
  end_orphans ctx now [] s = (s, [])
  end_orphans ctx now (run ∷ runs) s = elim (finalize_orphan host_of ctx now run s) [
    | err e ↦ end_orphans ctx now runs s
    | ok (t, failed) ↦ let (u, ids) = end_orphans ctx now runs t in (u, run.run_id ∷ ids)
  ]

  -- `at` is the reading of the clock that the leases are held against.
  unfoldable pub reclaim_orphans :
      Bool → String → ℕ → Store → Result StoreError (Store × List String)
  reclaim_orphans ctx now at s =
      reclaim_expired_runs ctx at s >>= λ expired. ok (end_orphans ctx now expired s)

  -- A valid run that was claimed and has not begun.
  pub record Claimed (r : ReplayRun) : Type 0 where
    pub valid : validate_run host_of r ≡ ok tt
    pub status : r.status ≡ RunStatus.validating

  end_orphans-Claimed :
      (ctx : Bool) (now : String) (runs : List ReplayRun) (s : Store)
      → All Claimed runs
      → end_orphans ctx now runs s ≡ (s, [])
  unfolding end_orphans
  end_orphans-Claimed ctx now [] s all = refl
  end_orphans-Claimed ctx now (r ∷ runs) s (c, all) = ground (
    arith,
    unstarted_orphan_stays host_of ctx now r s c.valid c.status,
    end_orphans-Claimed ctx now runs s all,
  )

  -- When all runs whose lease is over are valid and VALIDATING, the worker's recovery succeeds, reports
  -- no run and leaves the store as it is.
  pub reclaim_orphans-Claimed :
      (ctx : Bool) (now : String) (at : ℕ) (s : Store) (expired : List ReplayRun)
      → reclaim_expired_runs ctx at s ≡ ok expired
      → All Claimed expired
      → reclaim_orphans ctx now at s ≡ ok (s, [])
  unfolding reclaim_orphans
  reclaim_orphans-Claimed ctx now at s expired found all =
      rw (found, end_orphans-Claimed ctx now expired s all) refl
