-- ===== src/Core/Immutable.antt =====
-- internal/core: stored events, capsules and diffs, and what the calls do to them.
use clausa_lens.Prelude.{
  String, Bool, none, some, ◌≡◌, refl, arith, ok, ◌==◌, string_eq, Dict, lookup, insert,
  lookup-insert, eq_sound, Bool-cases, inl, inr,
}
use clausa_lens.Contracts.Event.{ExecutionEvent}
use clausa_lens.Contracts.Incident.{Incident}
use clausa_lens.Contracts.Graph.{ExecutionGraph}
use clausa_lens.Contracts.Capsule.{ReplayCapsule}
use clausa_lens.Contracts.Diff.{ReplayDiff}
use clausa_lens.Core.Store.{Store}
use clausa_lens.Core.Events.{ingest_event}
use clausa_lens.Core.Incidents.{put_incident}
use clausa_lens.Core.Runs.{put_capsule, put_diff}
use clausa_lens.Core.Lease.{claim_run, renew_lease}
use clausa_lens.Core.Runs.{put_run, transition_run}
use clausa_lens.Core.Steps.{
  Step, Steps, ingest, incident, capsule, put, transition, diff, claim, renew, here, next,
}

-- What stands under a key of the first map stands there in the second.
Kept : {V : Type 0} → Dict V → Dict V → Type 0
Kept {V} m n = (k : String) (v : V) → lookup k m ≡ some v → lookup k n ≡ some v

-- An entry under a new key hides no other one.
fresh_Kept :
    {V : Type 0} (j : String) (w : V) (m : Dict V) → lookup j m ≡ none → Kept m (insert j w m)
unfolding Kept
fresh_Kept j w m fresh k v at = elim (Bool-cases (j == k)) [
  | inl same ↦ absurd (cc (rw (eq_sound j k same) at fresh, at))
  | inr other ↦ rw lookup-insert (rw other at)
]

-- The three maps whose entries never change.
record Keeps (s t : Store) : Type 0 where
  pub events : Kept s.events t.events
  pub capsules : Kept s.capsules t.capsules
  pub diffs : Kept s.diffs t.diffs

same_Kept : {V : Type 0} {m n : Dict V} → n ≡ m → Kept m n
unfolding Kept
same_Kept e k v at = rw e at

-- A call that leaves the three maps as they are.
same_Keeps :
    {s t : Store}
    → (t.events ≡ s.events) × (t.capsules ≡ s.capsules) × (t.diffs ≡ s.diffs)
    → Keeps s t
same_Keeps (e, c, d) = record { events = same_Kept e; capsules = same_Kept c; diffs = same_Kept d }

pub put_incident-others :
    (ctx : Bool) (i : Incident) (g : ExecutionGraph) (s t : Store)
    → put_incident ctx i g s ≡ ok t
    → (t.events ≡ s.events) × (t.capsules ≡ s.capsules) × (t.diffs ≡ s.diffs)
unfolding put_incident
put_incident-others ctx i g s t h = ground arith

module _ (host_of : String → String) where
  Step-Keeps : {s t : Store} → Step host_of s t → Keeps s t
  unfolding ingest_event put_capsule put_diff put_run transition_run claim_run renew_lease
  Step-Keeps {s} {t} (ingest ctx e h) =
      let becomes : t ≡ record s { events = insert e.event_id e s.events } = ground arith in
      let fresh : lookup e.event_id s.events ≡ none = ground arith in
      rw becomes (record {
        events = fresh_Kept e.event_id e s.events fresh;
        capsules = same_Kept refl;
        diffs = same_Kept refl;
      })
  Step-Keeps {s} {t} (capsule ctx c h) =
      let becomes : t ≡ record s { capsules = insert c.capsule_id c s.capsules } = ground arith in
      let fresh : lookup c.capsule_id s.capsules ≡ none = ground arith in
      rw becomes (record {
        events = same_Kept refl;
        capsules = fresh_Kept c.capsule_id c s.capsules fresh;
        diffs = same_Kept refl;
      })
  Step-Keeps {s} {t} (diff ctx d h) =
      let becomes : t ≡ record s { diffs = insert d.diff_id d s.diffs } = ground arith in
      let fresh : lookup d.diff_id s.diffs ≡ none = ground arith in
      rw becomes (record {
        events = same_Kept refl;
        capsules = same_Kept refl;
        diffs = fresh_Kept d.diff_id d s.diffs fresh;
      })
  Step-Keeps {s} {t} (incident ctx i g h) = same_Keeps (put_incident-others ctx i g s t h)
  Step-Keeps (put ctx r h) = same_Keeps (ground arith)
  Step-Keeps (transition ctx from r h) = same_Keeps (ground arith)
  Step-Keeps (claim ctx now id lease r h) = same_Keeps (ground arith)
  Step-Keeps (renew ctx now id lease h) = same_Keeps (ground arith)

  Steps-Keeps : {s t : Store} → Steps host_of s t → Keeps s t
  unfolding Kept
  Steps-Keeps here = same_Keeps (refl, refl, refl)
  Steps-Keeps (next before call) =
      let a = Steps-Keeps before in
      let b = Step-Keeps call in
      record {
        events = λ k v at. b.events k v (a.events k v at);
        capsules = λ k v at. b.capsules k v (a.capsules k v at);
        diffs = λ k v at. b.diffs k v (a.diffs k v at);
      }

  -- An event, a capsule and a diff that stand in a store stand there unchanged after any successful
  -- calls but a reset.
  pub stored_stay :
      {s t : Store} {e : ExecutionEvent} {c : ReplayCapsule} {d : ReplayDiff}
      → Steps host_of s t
      → (i j k : String) → lookup i s.events ≡ some e
      → lookup j s.capsules ≡ some c
      → lookup k s.diffs ≡ some d
      → (lookup i t.events ≡ some e) × (lookup j t.capsules ≡ some c) × (lookup k t.diffs ≡ some d)
  unfolding Kept
  stored_stay {e} {c} {d} calls i j k at_i at_j at_k =
      let a = Steps-Keeps calls in (a.events i e at_i, a.capsules j c at_j, a.diffs k d at_k)
