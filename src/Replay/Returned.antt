-- ===== src/Replay/Returned.antt =====
-- cmd/replay-worker/main.go: what `processRun` returns, whatever the other processes do meanwhile.
use clausa_lens.Prelude.{String, true, some, ◌≡◌, ◌≢◌, err, string_eq, lookup}
use clausa_lens.Contracts.RunEnums.{RunStatus, run_status_eq, run_type_eq}
use clausa_lens.Contracts.Run.{ReplayRun, is_terminal}
use clausa_lens.Core.Store.{Store, StoreError}
use clausa_lens.Core.Lease.{claim_run}
use clausa_lens.Replay.Calls.{World, Worker, read, claim, reread}
use clausa_lens.Replay.Driven.{Verdict}

-- Each run of the store stands under its own id.
abbrev pub Keyed : Store → Type 0
Keyed s = (id : String) (r : ReplayRun) → lookup id s.runs ≡ some r → r.run_id ≡ id

module _ (world : World) (host_of : String → String) where
  -- Why `processRun` returns a run.
  pub data Answer (w : Worker) (id : String) (s : Store) (r : ReplayRun) : Type 0 where
    -- It had ended when the worker read it.
    ended_before :
        lookup id (world.others read s).runs ≡ some r
        → is_terminal r.status ≡ true
        → Answer w id s r
    -- The worker read it as CREATED, its claim was refused in the store as the other processes had left
    -- it since, and it was no longer CREATED when the worker read it again.
    taken :
        (q : ReplayRun) (e : StoreError)
        → lookup id (world.others read s).runs ≡ some q
        → q.status ≡ RunStatus.created
        → claim_run
            (world.cancelled claim)
            (world.at claim)
            id
            w.lease
            (world.others claim (world.others read s))
          ≡ err e
        → lookup id (world.others reread (world.others claim (world.others read s))).runs ≡ some r
        → r.status ≢ RunStatus.created
        → Answer w id s r
    -- The worker has driven it to its end.
    driven : Verdict world host_of w r → Answer w id s r
