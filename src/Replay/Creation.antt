-- ===== src/Replay/Creation.antt =====
-- internal/replay/replay.go: a run from `NewRun` to RUNNING.
use clausa_lens.Prelude.{
  ℕ, ◌+◌, String, true, false, Option, none, some, ◌≡◌, ◌≢◌, refl, arith, ok, ℤ, string_eq, lookup,
  insert, lookup-insert, eq_refl, option_eq, int_eq, subst, sym,
}
use clausa_lens.Contracts.RunEnums.{RunType, RunStatus, run_status_eq, run_type_eq}
use clausa_lens.Contracts.Time.{valid_utc_time}
use clausa_lens.Contracts.Run.{ReplayRun, Intervention, can_transition, intervention_eq}
use clausa_lens.Contracts.RunCheck.{
  validate_run, check_run_fields, check_times, check_evidence, check_result, check_error,
}
use clausa_lens.Contracts.RunFacts.{validate_run-Accepted, Accepted-validate_run}
use clausa_lens.Core.Store.{Store}
use clausa_lens.Core.Runs.{put_run, authorize, transition_run, same_identity}
use clausa_lens.Core.Lease.{claim_run}
use clausa_lens.Replay.Targets.{advanced_run}
use clausa_lens.Replay.Lifecycle.{new_run, advance_run, stored}

module _ (host_of : String → String) where
  -- A run that `NewRun` has made.
  record New (run_id : String) (run_type : RunType) (r : ReplayRun) : Type 0 where
    pub valid : validate_run host_of r ≡ ok tt
    pub status : r.status ≡ RunStatus.created
    pub id : r.run_id ≡ run_id
    pub kind : r.run_type ≡ run_type

  new_run-New :
      (id execution capsule digest : String) (kind : RunType) (base : String)
      (i : Option Intervention) (trial : ℤ) (r : ReplayRun)
      → new_run host_of id execution capsule digest kind base i trial ≡ ok r
      → New id kind r
  unfolding new_run
  new_run-New id execution capsule digest kind base i trial r h = record {
    valid = ground arith;
    status = ground arith;
    id = ground arith;
    kind = ground arith;
  }

  new_put :
      (r : ReplayRun) (s : Store)
      → validate_run host_of r ≡ ok tt
      → r.run_type ≡ RunType.baseline
      → lookup r.run_id s.runs ≡ none
      → put_run host_of false r s ≡ ok (record s { runs = insert r.run_id r s.runs })
  unfolding put_run authorize
  new_put r s valid kind fresh = rw (valid, fresh, kind) refl

  abbrev pub claimed_of : ReplayRun → ReplayRun
  claimed_of r = record r { status = RunStatus.validating }

  new_claimed :
      (at : ℕ) (r : ReplayRun) (lease : ℕ) (s : Store)
      → lookup r.run_id s.runs ≡ some r
      → r.status ≡ RunStatus.created
      → claim_run false at r.run_id lease s
        ≡ ok (
          record s {
            runs = insert r.run_id (claimed_of r) s.runs;
            lease_until = insert r.run_id (at + lease) s.lease_until;
          },
          claimed_of r,
        )
  unfolding claim_run
  new_claimed at r lease s there new = rw (there, new) refl

  unstarted :
      (r : ReplayRun) → check_times r ≡ ok tt → r.status ≡ RunStatus.created → r.started_at ≡ ""
  unfolding check_times
  unstarted r h k = ground (arith, string_eq.beq_iff r.started_at "")

  begun_valid :
      (now : String) (r : ReplayRun)
      → validate_run host_of r ≡ ok tt
      → r.status ≡ RunStatus.created
      → valid_utc_time now ≡ true
      → now ≢ ""
      → validate_run host_of (record r { status = RunStatus.running; started_at = now }) ≡ ok tt
  unfolding check_run_fields check_times check_evidence check_result check_error
  begun_valid now r valid new t n =
      let a = validate_run-Accepted host_of r valid in
      Accepted-validate_run host_of (record r { status = RunStatus.running; started_at = now })
        (record {
          fields = ground (arith, a.fields);
          kind = a.kind;
          changes = a.changes;
          evidence = ground (arith, a.evidence);
          times =
              ground
                (arith, a.times, string_eq.beq_iff now "", string_eq.beq_iff r.completed_at "");
          result = ground (arith, a.result);
          error = ground (arith, a.error);
        })

  -- The run that `AdvanceRun` to RUNNING writes.
  abbrev pub begun_of : String → ReplayRun → ReplayRun
  begun_of now r = record r { status = RunStatus.running; started_at = now }

  advanced :
      (now : String) (r : ReplayRun)
      → r.started_at ≡ ""
      → advanced_run now RunStatus.running (claimed_of r) ≡ begun_of now r
  unfolding advanced_run
  advanced now r new = rw new refl

  same_begun :
      (now : String) (r : ReplayRun)
      → same_identity RunStatus.validating (claimed_of r) (begun_of now r) ≡ true
  unfolding same_identity
  same_begun now r = rw (
    eq_refl r.execution_id,
    eq_refl r.capsule_id,
    eq_refl r.capsule_hash,
    eq_refl r.run_type,
    eq_refl r.baseline_run_id,
    eq_refl r.intervention,
    eq_refl r.trial_number,
  )

  begins :
      (now : String) (r : ReplayRun) (s : Store)
      → lookup r.run_id s.runs ≡ some (claimed_of r)
      → validate_run host_of (begun_of now r) ≡ ok tt
      → transition_run host_of false RunStatus.validating (begun_of now r) s
        ≡ ok (record s { runs = insert r.run_id (begun_of now r) s.runs })
  unfolding transition_run can_transition
  begins now r s at valid = rw (valid, at, same_begun now r) refl

  advance_begins :
      (now : String) (r : ReplayRun) (s : Store)
      → r.started_at ≡ ""
      → lookup r.run_id s.runs ≡ some (claimed_of r)
      → validate_run host_of (begun_of now r) ≡ ok tt
      → advance_run host_of false now (claimed_of r) RunStatus.running s
        ≡ ok (record s { runs = insert r.run_id (begun_of now r) s.runs }, begun_of now r)
  unfolding advance_run
  advance_begins now r s new at valid =
      subst
        (λ q.
          (stored q (transition_run host_of false RunStatus.validating q s))
          ≡ ok (record s { runs = insert r.run_id (begun_of now r) s.runs }, begun_of now r))
        (sym (advanced now r new)) (rw (begins now r s at valid) refl)

  -- A run from its creation to its begin.
  pub record Begins (r : ReplayRun) (at lease : ℕ) (now : String) (s : Store) : Type 0 where
    pub created : Store
    pub puts : put_run host_of false r s ≡ ok created
    pub claimed : Store
    pub claims : claim_run false at r.run_id lease created ≡ ok (claimed, claimed_of r)
    pub running : Store
    pub advances :
        advance_run host_of false now (claimed_of r) RunStatus.running claimed
        ≡ ok (running, begun_of now r)
    pub there : lookup r.run_id running.runs ≡ some (begun_of now r)

  found_inserted :
      (r q : ReplayRun) (s : Store) → lookup r.run_id (insert r.run_id q s.runs) ≡ some q
  found_inserted r q s = rw lookup-insert (rw (eq_refl r.run_id) refl)

  -- A BASELINE run that `NewRun` makes goes to RUNNING in every store that has no run of its id: with a
  -- valid time and a live context, `PutRun`, `ClaimRun` and `AdvanceRun` succeed one after the other, and
  -- the store then holds the run RUNNING since that time.
  pub new_run-Begins :
      (id execution capsule digest : String) (i : Option Intervention) (trial : ℤ) (r : ReplayRun)
      (at lease : ℕ) (now : String) (s : Store)
      → new_run host_of id execution capsule digest RunType.baseline "" i trial ≡ ok r
      → lookup id s.runs ≡ none
      → valid_utc_time now ≡ true
      → now ≢ ""
      → Begins r at lease now s
  new_run-Begins id execution capsule digest i trial r at lease now s made fresh t n =
      let x = new_run-New id execution capsule digest RunType.baseline "" i trial r made in
      let created : Store = record s { runs = insert r.run_id r s.runs } in
      let claimed : Store = record s {
        runs = insert r.run_id (claimed_of r) created.runs;
        lease_until = insert r.run_id (at + lease) s.lease_until;
      } in
      record {
        created = created;
        puts = new_put r s x.valid x.kind (rw x.id fresh);
        claimed = claimed;
        claims = new_claimed at r lease created (found_inserted r r s) x.status;
        running = record claimed { runs = insert r.run_id (begun_of now r) claimed.runs };
        advances =
            advance_begins now r claimed
              (unstarted r (validate_run-Accepted host_of r x.valid).times x.status)
              (found_inserted r (claimed_of r) created) (begun_valid now r x.valid x.status t n);
        there = found_inserted r (begun_of now r) claimed;
      }
