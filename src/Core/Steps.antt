-- ===== src/Core/Steps.antt =====
-- internal/core: the calls on a store as a step relation. Each constructor is one call that succeeds,
-- whatever its arguments; a call that fails leaves the store as it is.
use clausa_lens.Prelude.{ℕ, String, Bool, ok, ◌≡◌}
use clausa_lens.Contracts.RunEnums.{RunStatus}
use clausa_lens.Contracts.Event.{ExecutionEvent}
use clausa_lens.Contracts.Incident.{Incident}
use clausa_lens.Contracts.Graph.{ExecutionGraph}
use clausa_lens.Contracts.Capsule.{ReplayCapsule}
use clausa_lens.Contracts.Run.{ReplayRun}
use clausa_lens.Contracts.Diff.{ReplayDiff}
use clausa_lens.Core.Store.{Store, ResetCounts, new_store, reset}
use clausa_lens.Core.Events.{ingest_event}
use clausa_lens.Core.Incidents.{put_incident}
use clausa_lens.Core.Runs.{put_capsule, put_run, transition_run, put_diff}
use clausa_lens.Core.Lease.{claim_run, renew_lease}

module _ (host_of : String → String) where
  -- The calls that add to the store or change it, all but `Reset`.
  pub data Step (s t : Store) : Type 0 where
    ingest : (ctx : Bool) (e : ExecutionEvent) → ingest_event ctx e s ≡ ok t → Step s t
    incident :
        (ctx : Bool) (i : Incident) (g : ExecutionGraph) → put_incident ctx i g s ≡ ok t → Step s t
    capsule : (ctx : Bool) (c : ReplayCapsule) → put_capsule ctx c s ≡ ok t → Step s t
    put : (ctx : Bool) (r : ReplayRun) → put_run host_of ctx r s ≡ ok t → Step s t
    transition :
        (ctx : Bool) (from : RunStatus) (r : ReplayRun)
        → transition_run host_of ctx from r s ≡ ok t
        → Step s t
    diff : (ctx : Bool) (d : ReplayDiff) → put_diff ctx d s ≡ ok t → Step s t
    claim :
        (ctx : Bool) (now : ℕ) (id : String) (lease : ℕ) (r : ReplayRun)
        → claim_run ctx now id lease s ≡ ok (t, r)
        → Step s t
    renew :
        (ctx : Bool) (now : ℕ) (id : String) (lease : ℕ)
        → renew_lease ctx now id lease s ≡ ok t
        → Step s t

  -- Any number of such calls.
  pub data Steps (s : Store) : Store → Type 0 where
    here : Steps s s
    next : {t u : Store} → Steps s t → Step t u → Steps s u

  -- What a store can become from empty, resets included.
  pub data Reached : Store → Type 0 where
    fresh : Reached new_store
    step : {s t : Store} → Reached s → Step s t → Reached t
    cleared :
        {s t : Store} (ctx : Bool) (counts : ResetCounts)
        → Reached s
        → reset ctx s ≡ ok (t, counts)
        → Reached t
