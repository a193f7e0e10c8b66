-- ===== src/Core/Invariant.antt =====
-- internal/core: the invariant of the stored runs.
use clausa_lens.Prelude.{
  String, true, false, some, ◌≡◌, ◌⊎◌, sym, arith, ok, ◌==◌, string_eq, lookup, insert,
  lookup-insert, eq_sound, Bool-cases, inl, inr,
}
use clausa_lens.Contracts.RunEnums.{RunType, RunStatus, run_type_eq, run_status_eq}
use clausa_lens.Contracts.Run.{ReplayRun}
use clausa_lens.Contracts.RunCheck.{validate_run}
use clausa_lens.Core.Store.{Store}
use clausa_lens.Core.Runs.{eligible_baseline}

module _ (host_of : String → String) where
  -- A stored run is valid, under its own id, and a what-if run has a baseline that allows it.
  pub record RunsWellFormed (s : Store) : Type 0 where
    pub keyed : (id : String) (r : ReplayRun) → lookup id s.runs ≡ some r → r.run_id ≡ id
    pub valid :
        (id : String) (r : ReplayRun) → lookup id s.runs ≡ some r → validate_run host_of r ≡ ok tt
    pub baseline :
        (id : String) (r : ReplayRun)
        → lookup id s.runs ≡ some r
        → r.run_type ≡ RunType.what_if
        → (b : ReplayRun) × (lookup r.baseline_run_id s.runs ≡ some b)
          × (eligible_baseline r b ≡ true)

  -- What a call that stores one run has to show of it.
  pub record Storable (s : Store) (r : ReplayRun) : Type 0 where
    pub valid : validate_run host_of r ≡ ok tt
    pub unfinished :
        (b : ReplayRun)
        → lookup r.run_id s.runs ≡ some b
        → (b.status == RunStatus.completed) ≡ false
    pub baseline :
        r.run_type ≡ RunType.what_if
        → (b : ReplayRun) × (lookup r.baseline_run_id s.runs ≡ some b)
          × (eligible_baseline r b ≡ true)

  eligible-completed :
      (r b : ReplayRun) → eligible_baseline r b ≡ true → (b.status == RunStatus.completed) ≡ true
  unfolding eligible_baseline
  eligible-completed r b h = ground arith

  -- A run that may be replaced is no one's baseline, so the baseline of a run is still there.
  kept_baseline :
      {s : Store} {r : ReplayRun} (q b : ReplayRun)
      → Storable s r
      → lookup q.baseline_run_id s.runs ≡ some b
      → eligible_baseline q b ≡ true
      → lookup q.baseline_run_id (insert r.run_id r s.runs) ≡ some b
  kept_baseline {s} {r} q b ready at fits =
      rw lookup-insert (elim (Bool-cases (r.run_id == q.baseline_run_id)) [
        | inl same ↦
            let here = rw (← eq_sound r.run_id q.baseline_run_id same) at at in
            cc (ready.unfinished b here, eligible-completed q b fits)
        | inr other ↦ rw other at
      ])

  stored_run :
      (s : Store) (r : ReplayRun) (id : String) (q : ReplayRun)
      → lookup id (insert r.run_id r s.runs) ≡ some q
      → ((q ≡ r) × (id ≡ r.run_id)) ⊎ (lookup id s.runs ≡ some q)
  stored_run s r id q h =
      ground (arith, lookup-insert r.run_id id r s.runs, string_eq.beq_iff r.run_id id)

  baseline_of :
      {s : Store} {r : ReplayRun} (q : ReplayRun)
      → Storable s r
      → (b : ReplayRun) × (lookup q.baseline_run_id s.runs ≡ some b)
        × (eligible_baseline q b ≡ true)
      → (b : ReplayRun) × (lookup q.baseline_run_id (insert r.run_id r s.runs) ≡ some b)
        × (eligible_baseline q b ≡ true)
  baseline_of q ready (b, at, fits) = (b, kept_baseline q b ready at fits, fits)

  pub store_run-RunsWellFormed :
      (s : Store) (r : ReplayRun)
      → RunsWellFormed s
      → Storable s r
      → RunsWellFormed (record s { runs = insert r.run_id r s.runs })
  store_run-RunsWellFormed s r w ready = record {
    keyed = λ id q h. elim (stored_run s r id q h) [
      | inl (new, at) ↦ rw new (sym at)
      | inr old ↦ w.keyed id q old
    ];
    valid = λ id q h. elim (stored_run s r id q h) [
      | inl (new, at) ↦ rw new ready.valid
      | inr old ↦ w.valid id q old
    ];
    baseline = λ id q h kind. elim (stored_run s r id q h) [
      | inl (new, at) ↦ rw new (baseline_of r ready (ready.baseline (rw new at kind)))
      | inr old ↦ baseline_of q ready (w.baseline id q old kind)
    ];
  }
