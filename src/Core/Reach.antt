-- ===== src/Core/Reach.antt =====
-- internal/core: the well-formedness of the stores that the calls reach.
use clausa_lens.Prelude.{ℕ, String, Bool, ◌≡◌, refl, arith, ok, [], lookup, ap}
use clausa_lens.Contracts.Event.{ExecutionEvent}
use clausa_lens.Contracts.Incident.{Incident}
use clausa_lens.Contracts.Graph.{ExecutionGraph}
use clausa_lens.Contracts.Capsule.{ReplayCapsule}
use clausa_lens.Contracts.Diff.{ReplayDiff}
use clausa_lens.Core.Store.{Store, ResetCounts, reset}
use clausa_lens.Core.Events.{ingest_event}
use clausa_lens.Core.Incidents.{put_incident}
use clausa_lens.Core.Runs.{put_capsule, put_diff}
use clausa_lens.Core.Lease.{renew_lease}
use clausa_lens.Core.Steps.{
  Step, Reached, ingest, incident, capsule, put, transition, diff, claim, renew, fresh, step,
  cleared,
}
use clausa_lens.Core.Invariant.{RunsWellFormed, store_run-RunsWellFormed}
use clausa_lens.Core.Ready.{
  put_run-shape, put_run-Storable, transition_run-Replaces, transition_run-Storable,
  claim_run-Claims, claim_run-Storable, claim_run-runs,
}

pub ingest_event-runs :
    (ctx : Bool) (e : ExecutionEvent) (s t : Store) → ingest_event ctx e s ≡ ok t → t.runs ≡ s.runs
unfolding ingest_event
ingest_event-runs ctx e s t h = ground arith

pub put_incident-runs :
    (ctx : Bool) (i : Incident) (g : ExecutionGraph) (s t : Store)
    → put_incident ctx i g s ≡ ok t
    → t.runs ≡ s.runs
unfolding put_incident
put_incident-runs ctx i g s t h = ground arith

pub put_capsule-runs :
    (ctx : Bool) (c : ReplayCapsule) (s t : Store) → put_capsule ctx c s ≡ ok t → t.runs ≡ s.runs
unfolding put_capsule
put_capsule-runs ctx c s t h = ground arith

pub put_diff-runs :
    (ctx : Bool) (d : ReplayDiff) (s t : Store) → put_diff ctx d s ≡ ok t → t.runs ≡ s.runs
unfolding put_diff
put_diff-runs ctx d s t h = ground arith

pub renew_lease-runs :
    (ctx : Bool) (now : ℕ) (id : String) (lease : ℕ) (s t : Store)
    → renew_lease ctx now id lease s ≡ ok t
    → t.runs ≡ s.runs
unfolding renew_lease
renew_lease-runs ctx now id lease s t h = ground arith

pub reset-runs :
    (ctx : Bool) (s t : Store) (c : ResetCounts) → reset ctx s ≡ ok (t, c) → t.runs ≡ []
unfolding reset
reset-runs ctx s t c h = ground arith

module _ (host_of : String → String) where
  -- The invariant reads the runs alone.
  same_runs : {s t : Store} → RunsWellFormed host_of s → t.runs ≡ s.runs → RunsWellFormed host_of t
  same_runs {s} {t} w e = record {
    keyed = λ id r h. w.keyed id r (rw e at h);
    valid = λ id r h. w.valid id r (rw e at h);
    baseline = λ id r h kind. rw e (w.baseline id r (rw e at h) kind);
  }

  -- Every successful call keeps the runs of a store well formed.
  pub Step-RunsWellFormed :
      {s t : Store} → Step host_of s t → RunsWellFormed host_of s → RunsWellFormed host_of t
  Step-RunsWellFormed {s} {t} (ingest ctx e h) w = same_runs w (ingest_event-runs ctx e s t h)
  Step-RunsWellFormed {s} {t} (incident ctx i g h) w = same_runs w (put_incident-runs ctx i g s t h)
  Step-RunsWellFormed {s} {t} (capsule ctx c h) w = same_runs w (put_capsule-runs ctx c s t h)
  Step-RunsWellFormed {s} {t} (diff ctx d h) w = same_runs w (put_diff-runs ctx d s t h)
  Step-RunsWellFormed {s} {t} (renew ctx now id lease h) w =
      same_runs w (renew_lease-runs ctx now id lease s t h)
  Step-RunsWellFormed {s} {t} (put ctx r h) w =
      same_runs (store_run-RunsWellFormed host_of s r w (put_run-Storable host_of ctx r s t h))
        (ap (λ (x : Store). x.runs) (put_run-shape host_of ctx r s t h).3)
  Step-RunsWellFormed {s} {t} (transition ctx from r h) w =
      same_runs
        (store_run-RunsWellFormed host_of s r w
          (transition_run-Storable host_of ctx from r s t w h))
        (ap (λ (x : Store). x.runs) (transition_run-Replaces host_of ctx from r s t h).becomes)
  Step-RunsWellFormed {s} {t} (claim ctx now id lease r h) w =
      let c = claim_run-Claims ctx now id lease r s t h in
      same_runs (store_run-RunsWellFormed host_of s r w (claim_run-Storable host_of w c))
        (claim_run-runs host_of w c)

  no_runs : {t : Store} → t.runs ≡ [] → RunsWellFormed host_of t
  unfolding lookup
  no_runs {t} e = record {
    keyed = λ id r h. cc (rw e at h);
    valid = λ id r h. cc (rw e at h);
    baseline = λ id r h kind. absurd (cc (rw e at h));
  }

  -- In every store that the calls reach from an empty one, resets included, each run is valid and
  -- stands under its own id, and each what-if run has in the store a BASELINE run of the same capsule
  -- that is COMPLETED and REPRODUCED with passing isolation.
  pub Reached-RunsWellFormed : {s : Store} → Reached host_of s → RunsWellFormed host_of s
  Reached-RunsWellFormed fresh = no_runs refl
  Reached-RunsWellFormed (step before call) =
      Step-RunsWellFormed call (Reached-RunsWellFormed before)
  Reached-RunsWellFormed (cleared {s} {t} ctx counts before h) =
      no_runs (reset-runs ctx s t counts h)
