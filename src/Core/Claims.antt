-- ===== src/Core/Claims.antt =====
-- internal/core/lease.go: one claim of a run, whatever is called after it.
use clausa_lens.Prelude.{
  ℕ, ◌≤◌, String, Bool, true, false, some, ◌≡◌, ap, arith, ok, err, ◌==◌, string_eq, lookup, insert,
  lookup-insert, eq_sound, eq_refl, Bool-cases, inl, inr,
}
use clausa_lens.Contracts.RunEnums.{RunStatus, run_status_eq}
use clausa_lens.Contracts.Run.{ReplayRun}
use clausa_lens.Contracts.Lifecycle.{progress, can_transition-progress}
use clausa_lens.Core.Store.{Store, invalid_lifecycle}
use clausa_lens.Core.Lease.{claim_run}
use clausa_lens.Core.Steps.{
  Step, Steps, ingest, incident, capsule, put, transition, diff, claim, renew, here, next,
}
use clausa_lens.Core.Ready.{
  put_run-shape, transition_run-Replaces, claim_run-Claims, same_status, Claims,
}
use clausa_lens.Core.Reach.{
  ingest_event-runs, put_incident-runs, put_capsule-runs, put_diff-runs, renew_lease-runs,
}

-- The run of an id is there, at `n` or later in its life.
pub record AtLeast (n : ℕ) (id : String) (s : Store) : Type 0 where
  pub run : ReplayRun
  pub at : lookup id s.runs ≡ some run
  pub reached : n ≤ progress run.status

keep : {n : ℕ} {id : String} {s t : Store} → AtLeast n id s → t.runs ≡ s.runs → AtLeast n id t
keep a e = record { run = a.run; at = rw e a.at; reached = a.reached }

-- A run is written over: by one that has come further, if it is this run.
overwrite :
    {n : ℕ} {id : String} {s t : Store} (k : String) (q : ReplayRun)
    → AtLeast n id s
    → t.runs ≡ insert k q s.runs
    → ((k == id) ≡ true → n ≤ progress q.status)
    → AtLeast n id t
overwrite {id} {s} k q a e further = elim (Bool-cases (k == id)) [
  | inl same ↦ record { run = q; at = rw e (rw lookup-insert (rw same)); reached = further same }
  | inr other ↦ record {
    run = a.run;
    at = rw e (rw lookup-insert (rw other a.at));
    reached = a.reached;
  }
]

claimed_AtLeast :
    {id : String} {r : ReplayRun} {s t : Store}
    → Claims id r s t
    → r.status ≡ RunStatus.validating
    → AtLeast 1 id t
claimed_AtLeast {id} {r} c ends = record {
  run = r;
  at = rw c.runs (rw lookup-insert (rw eq_refl));
  reached = omega (arith, ap progress ends);
}

module _ (host_of : String → String) where
  -- No call takes a run back.
  Step-AtLeast :
      {n : ℕ} {id : String} {s t : Store} → Step host_of s t → AtLeast n id s → AtLeast n id t
  Step-AtLeast {s} {t} (ingest ctx e h) a = keep a (ingest_event-runs ctx e s t h)
  Step-AtLeast {s} {t} (incident ctx i g h) a = keep a (put_incident-runs ctx i g s t h)
  Step-AtLeast {s} {t} (capsule ctx c h) a = keep a (put_capsule-runs ctx c s t h)
  Step-AtLeast {s} {t} (diff ctx d h) a = keep a (put_diff-runs ctx d s t h)
  Step-AtLeast {s} {t} (renew ctx now k lease h) a = keep a (renew_lease-runs ctx now k lease s t h)
  Step-AtLeast {id} {s} {t} (put ctx r h) a =
      let (valid, fresh, authorized, becomes) = put_run-shape host_of ctx r s t h in
      overwrite r.run_id r a (ap (λ (x : Store). x.runs) becomes)
        (λ same. absurd (cc (rw (eq_sound r.run_id id same) at fresh, a.at)))
  Step-AtLeast {id} {s} {t} (transition ctx from r h) a =
      let x = transition_run-Replaces host_of ctx from r s t h in
      overwrite r.run_id r a (ap (λ (x : Store). x.runs) x.becomes) (λ same.
        let mine : x.old ≡ a.run = cc (rw (eq_sound r.run_id id same) at x.at, a.at) in
        let starts = rw mine at (same_status from x.old r x.same) in
        let later = (can_transition-progress from r.status x.legal).0 in
        omega (arith, ap progress starts, a.reached, later))
  Step-AtLeast {id} {s} {t} (claim ctx now k lease r h) a =
      let c = claim_run-Claims ctx now k lease r s t h in
      overwrite k r a c.runs (λ same.
        let mine : c.old ≡ a.run = cc (rw (eq_sound k id same) at c.at, a.at) in
        let starts = rw mine at c.new in
        let ends : r.status ≡ RunStatus.validating = ap (λ (q : ReplayRun). q.status) c.claimed in
        omega (arith, ap progress starts, ap progress ends, a.reached))

  Steps-AtLeast :
      {n : ℕ} {id : String} {s t : Store} → Steps host_of s t → AtLeast n id s → AtLeast n id t
  Steps-AtLeast here a = a
  Steps-AtLeast (next before call) a = Step-AtLeast call (Steps-AtLeast before a)

  -- After a successful claim of a run, and any successful calls but a reset, every further claim of
  -- it with a live context is refused as an invalid lifecycle.
  pub claim_once :
      (ctx : Bool) (now : ℕ) (id : String) (lease : ℕ) (r : ReplayRun) (s t u : Store)
      → claim_run ctx now id lease s ≡ ok (t, r)
      → Steps host_of t u
      → (now' lease' : ℕ) → claim_run false now' id lease' u ≡ err invalid_lifecycle
  unfolding claim_run
  claim_once ctx now id lease r s t u h calls now' lease' =
      let c = claim_run-Claims ctx now id lease r s t h in
      let ends : r.status ≡ RunStatus.validating = ap (λ (q : ReplayRun). q.status) c.claimed in
      let a = Steps-AtLeast calls (claimed_AtLeast c ends) in rw a.at (ground (arith, a.reached))
