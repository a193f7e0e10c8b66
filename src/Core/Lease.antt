-- ===== src/Core/Lease.antt =====
-- internal/core/lease.go: the claim of a run and its lease, in memory. `now` is the reading of the
-- clock, and a lease a length of time, both in nanoseconds.
use clausa_lens.Prelude.{
  ℕ, ◌+◌, String, Bool, true, ◌&&◌, not, Option, none, some, List, [], ◌∷◌, ◌!=◌, Result, ok,
  reject, ◌>>◌, ◌>>=◌, Dict, insert, lookup, has, ltb, if◌then◌else◌,
}
use clausa_lens.Contracts.RunEnums.{RunStatus, run_status_eq}
use clausa_lens.Contracts.Run.{ReplayRun}
use clausa_lens.Core.Store.{Store, StoreError, internal, not_found, invalid_lifecycle}
use clausa_lens.Core.Runs.{found_or}

unfoldable pub claim_run : Bool → ℕ → String → ℕ → Store → Result StoreError (Store × ReplayRun)
claim_run ctx now run_id lease s = do
  reject ctx internal
  run ← found_or not_found (lookup run_id s.runs)
  reject (run.status != RunStatus.created) invalid_lifecycle
  let claimed = record run { status = RunStatus.validating }
  ok (
    record s {
      runs = insert run_id claimed s.runs;
      lease_until = insert run_id (now + lease) s.lease_until;
    },
    claimed,
  )

unfoldable pub renew_lease : Bool → ℕ → String → ℕ → Store → Result StoreError Store
renew_lease ctx now run_id lease s = do
  reject ctx internal
  reject (not (has run_id s.runs)) not_found
  ok (record s { lease_until = insert run_id (now + lease) s.lease_until })

-- `!ok || until.Before(now)`
unfoldable pub lease_expired : Option ℕ → ℕ → Bool
lease_expired none now = true
lease_expired (some until) now = ltb until now

unfoldable pub is_stranded : RunStatus → Bool
is_stranded status = not (status != RunStatus.validating && status != RunStatus.running)

unfoldable pub stranded_runs : ℕ → Dict ℕ → Dict ReplayRun → List ReplayRun
unfolding is_stranded lease_expired
stranded_runs now leases [] = []
stranded_runs now leases ((id, run) ∷ rest) =
    let others = stranded_runs now leases rest in
    if is_stranded run.status && lease_expired (lookup id leases) now then run ∷ others else others

unfoldable pub reclaim_expired_runs : Bool → ℕ → Store → Result StoreError (List ReplayRun)
reclaim_expired_runs ctx now s = reject ctx internal >> ok (stranded_runs now s.lease_until s.runs)
