-- ===== src/Core/Ready.antt =====
-- internal/core: what the calls that store a run have checked of it.
use clausa_lens.Prelude.{
  ℕ, String, Bool, true, false, Option, none, some, ◌≡◌, refl, sym, ap, ◌∙◌, arith, ok, ◌==◌,
  string_eq, lookup, insert, eq_sound, Option-cases, inl, inr, option_eq, int_eq,
}
use clausa_lens.Contracts.RunEnums.{RunType, RunStatus, run_type_eq, run_status_eq}
use clausa_lens.Contracts.Run.{ReplayRun, can_transition, intervention_eq}
use clausa_lens.Contracts.RunCheck.{
  validate_run, check_run_fields, check_times, check_result, check_evidence, check_error,
}
use clausa_lens.Contracts.RunFacts.{validate_run-Accepted, Accepted-validate_run}
use clausa_lens.Core.Store.{Store}
use clausa_lens.Core.Runs.{
  put_run, transition_run, eligible_baseline, check_baseline, authorize, same_identity,
}
use clausa_lens.Core.Lease.{claim_run}
use clausa_lens.Core.Invariant.{RunsWellFormed, Storable}

authorized_baseline :
    (r : ReplayRun) (o : Option ReplayRun)
    → authorize r o ≡ ok tt
    → r.run_type ≡ RunType.what_if
    → (b : ReplayRun) × (o ≡ some b) × (eligible_baseline r b ≡ true)
unfolding authorize check_baseline
authorized_baseline r none h k = ground arith
authorized_baseline r (some b) h k = (b, refl, ground arith)

from_unfinished :
    (from to : RunStatus) → can_transition from to ≡ true → (from == RunStatus.completed) ≡ false
unfolding can_transition
from_unfinished from to h = ground arith

pub same_status :
    (from : RunStatus) (a r : ReplayRun) → same_identity from a r ≡ true → a.status ≡ from
unfolding same_identity
same_status from a r h = eq_sound a.status from (ground arith)

same_kind :
    (from : RunStatus) (a r : ReplayRun) → same_identity from a r ≡ true → a.run_type ≡ r.run_type
unfolding same_identity
same_kind from a r h = eq_sound a.run_type r.run_type (ground arith)

same_baseline :
    (from : RunStatus) (a r : ReplayRun)
    → same_identity from a r ≡ true
    → a.baseline_run_id ≡ r.baseline_run_id
unfolding same_identity
same_baseline from a r h = eq_sound a.baseline_run_id r.baseline_run_id (ground arith)

same_capsule :
    (from : RunStatus) (a r : ReplayRun)
    → same_identity from a r ≡ true
    → a.capsule_id ≡ r.capsule_id
unfolding same_identity
same_capsule from a r h = eq_sound a.capsule_id r.capsule_id (ground arith)

same_hash :
    (from : RunStatus) (a r : ReplayRun)
    → same_identity from a r ≡ true
    → a.capsule_hash ≡ r.capsule_hash
unfolding same_identity
same_hash from a r h = eq_sound a.capsule_hash r.capsule_hash (ground arith)

same_eligible :
    (from : RunStatus) (a r b : ReplayRun)
    → same_identity from a r ≡ true
    → eligible_baseline a b ≡ true
    → eligible_baseline r b ≡ true
unfolding eligible_baseline
same_eligible from a r b same fits =
    rw (← same_baseline from a r same, ← same_capsule from a r same, ← same_hash from a r same) fits

-- The old and the new run and store of a claim.
pub record Claims (id : String) (r : ReplayRun) (s t : Store) : Type 0 where
  pub old : ReplayRun
  pub at : lookup id s.runs ≡ some old
  pub new : old.status ≡ RunStatus.created
  pub claimed : r ≡ record old { status = RunStatus.validating }
  pub runs : t.runs ≡ insert id r s.runs

pub claim_run-Claims :
    (ctx : Bool) (now : ℕ) (id : String) (lease : ℕ) (r : ReplayRun) (s t : Store)
    → claim_run ctx now id lease s ≡ ok (t, r)
    → Claims id r s t
unfolding claim_run
claim_run-Claims ctx now id lease r s t h = elim (Option-cases (lookup id s.runs)) [
  | inl gone ↦ ground arith
  | inr (stored, at) ↦ record {
    old = stored;
    at = at;
    new = ground arith;
    claimed = ground arith;
    runs = ground arith;
  }
]

module _ (host_of : String → String) where
  pub put_run-shape :
      (ctx : Bool) (r : ReplayRun) (s t : Store)
      → put_run host_of ctx r s ≡ ok t
      → (validate_run host_of r ≡ ok tt)
        × (lookup r.run_id s.runs ≡ none)
        × (authorize r (lookup r.baseline_run_id s.runs) ≡ ok tt)
        × (t ≡ record s { runs = insert r.run_id r s.runs })
  unfolding put_run
  put_run-shape ctx r s t h = ground arith

  pub put_run-Storable :
      (ctx : Bool) (r : ReplayRun) (s t : Store)
      → put_run host_of ctx r s ≡ ok t
      → Storable host_of s r
  put_run-Storable ctx r s t h =
      let (valid, fresh, authorized, _) = put_run-shape ctx r s t h in
      record {
        valid = valid;
        unfinished = λ b at. cc (fresh, at);
        baseline = authorized_baseline r (lookup r.baseline_run_id s.runs) authorized;
      }

  pub record Replaces (from : RunStatus) (r : ReplayRun) (s t : Store) : Type 0 where
    pub old : ReplayRun
    pub valid : validate_run host_of r ≡ ok tt
    pub at : lookup r.run_id s.runs ≡ some old
    pub legal : can_transition from r.status ≡ true
    pub same : same_identity from old r ≡ true
    pub becomes : t ≡ record s { runs = insert r.run_id r s.runs }

  pub transition_run-Replaces :
      (ctx : Bool) (from : RunStatus) (r : ReplayRun) (s t : Store)
      → transition_run host_of ctx from r s ≡ ok t
      → Replaces from r s t
  unfolding transition_run
  transition_run-Replaces ctx from r s t h = elim (Option-cases (lookup r.run_id s.runs)) [
    | inl gone ↦ ground arith
    | inr (stored, at) ↦ record {
      old = stored;
      valid = ground arith;
      at = at;
      legal = ground arith;
      same = ground arith;
      becomes = ground arith;
    }
  ]

  pub transition_run-Storable :
      (ctx : Bool) (from : RunStatus) (r : ReplayRun) (s t : Store)
      → RunsWellFormed host_of s
      → transition_run host_of ctx from r s ≡ ok t
      → Storable host_of s r
  transition_run-Storable ctx from r s t w h =
      let x = transition_run-Replaces ctx from r s t h in
      record {
        valid = x.valid;
        unfinished = λ b at.
            let same : x.old ≡ b = cc (x.at, at) in
            let starts = rw same at (same_status from x.old r x.same) in
            rw starts (from_unfinished from r.status x.legal);
        baseline = λ kind.
            let (b, at, fits) =
              w.baseline r.run_id x.old x.at (same_kind from x.old r x.same ∙ kind) in
            (
              b,
              rw (← same_baseline from x.old r x.same) at,
              same_eligible from x.old r b x.same fits,
            );
      }

  claimed_valid :
      (r : ReplayRun)
      → r.status ≡ RunStatus.created
      → validate_run host_of r ≡ ok tt
      → validate_run host_of (record r { status = RunStatus.validating }) ≡ ok tt
  unfolding check_run_fields check_times check_result check_evidence check_error
  claimed_valid r new h =
      let a = validate_run-Accepted host_of r h in
      Accepted-validate_run host_of (record r { status = RunStatus.validating })
        (record {
          fields = ground arith;
          kind = a.kind;
          changes = a.changes;
          evidence = ground (arith, a.evidence);
          times = ground (arith, a.times);
          result = ground (arith, a.result);
          error = ground (arith, a.error);
        })

  pub claim_run-Storable :
      {id : String} {r : ReplayRun} {s t : Store}
      → RunsWellFormed host_of s
      → Claims id r s t
      → Storable host_of s r
  unfolding eligible_baseline
  claim_run-Storable {id} {r} {s} w c = rw c.claimed (record {
    valid = claimed_valid c.old c.new (w.valid id c.old c.at);
    unfinished = λ b at.
        let here : lookup c.old.run_id s.runs ≡ some b = at in
        let same : c.old ≡ b = cc (c.at, rw (w.keyed id c.old c.at) at here) in rw (← same, c.new);
    baseline = λ kind. w.baseline id c.old c.at kind;
  })

  pub claim_run-runs :
      {id : String} {r : ReplayRun} {s t : Store}
      → RunsWellFormed host_of s
      → Claims id r s t
      → t.runs ≡ insert r.run_id r s.runs
  claim_run-runs {id} {r} {s} w c =
      let same : r.run_id ≡ id = rw c.claimed (w.keyed id c.old c.at) in
      c.runs ∙ ap (λ k. insert k r s.runs) (sym same)
