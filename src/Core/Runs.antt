-- ===== src/Core/Runs.antt =====
-- internal/core/store.go: capsules, runs and diffs.
use clausa_lens.Prelude.{
  String, Bool, ◌||◌, not, Option, none, some, List, select, ◌==◌, ◌!=◌, string_eq, int_eq,
  option_eq, Result, ok, err, reject, ◌>>◌, ◌>>=◌, or_fail, insert, lookup, has, values, sort_by,
  is_err, is_some, if◌then◌else◌,
}
use clausa_lens.Contracts.RunEnums.{
  RunType, RunStatus, Outcome, run_type_eq, run_status_eq, outcome_eq,
}
use clausa_lens.Contracts.Capsule.{ReplayCapsule}
use clausa_lens.Contracts.CapsuleCheck.{validate_capsule}
use clausa_lens.Contracts.Run.{ReplayRun, intervention_eq, can_transition}
use clausa_lens.Contracts.RunCheck.{validate_run, verdict_passes}
use clausa_lens.Contracts.Diff.{ReplayDiff}
use clausa_lens.Contracts.DiffCheck.{validate_diff}
use clausa_lens.Graph.Build.{text_less}
use clausa_lens.Core.Store.{Store, StoreError, internal, conflict, not_found, invalid_lifecycle}

abbrev pub found_or : {A : Type 0} → StoreError → Option A → Result StoreError A
found_or e none = err e
found_or e (some a) = ok a

unfoldable pub put_capsule : Bool → ReplayCapsule → Store → Result StoreError Store
put_capsule ctx c s = do
  reject ctx internal
  or_fail (validate_capsule c) internal
  reject (has c.capsule_id s.capsules) conflict
  ok (record s { capsules = insert c.capsule_id c s.capsules })

unfoldable pub get_capsule : Bool → String → Store → Result StoreError ReplayCapsule
get_capsule ctx id s = reject ctx internal >> found_or not_found (lookup id s.capsules)

-- What `PutRun` asks of the baseline of a what-if run.
unfoldable pub eligible_baseline : ReplayRun → ReplayRun → Bool
eligible_baseline run baseline = not (
    baseline.run_id != run.baseline_run_id
    || baseline.run_type != RunType.baseline
    || baseline.status != RunStatus.completed
    || baseline.outcome != Outcome.reproduced
    || not (verdict_passes baseline.isolation_evidence)
    || baseline.capsule_id != run.capsule_id
    || baseline.capsule_hash != run.capsule_hash
    || is_some baseline.intervention)

unfoldable pub check_baseline : ReplayRun → Option ReplayRun → Result StoreError (Unit {0})
check_baseline run none = err invalid_lifecycle
check_baseline run (some baseline) = reject (not (eligible_baseline run baseline)) invalid_lifecycle

unfoldable pub authorize : ReplayRun → Option ReplayRun → Result StoreError (Unit {0})
authorize run baseline =
    if run.run_type == RunType.what_if then check_baseline run baseline else ok tt

unfoldable pub get_run : Bool → String → Store → Result StoreError ReplayRun
get_run ctx id s = reject ctx internal >> found_or not_found (lookup id s.runs)

unfoldable pub list_runs : Bool → RunStatus → Store → Result StoreError (List ReplayRun)
list_runs ctx status s =
    reject ctx internal
    >> ok (
        sort_by (λ a b. text_less a.run_id b.run_id)
          (select (λ r. r.status == status) (values s.runs)))

-- The fields of a run that a transition may not change, and the status that it starts from.
unfoldable pub same_identity : RunStatus → ReplayRun → ReplayRun → Bool
same_identity from stored run = not (
    stored.status != from
    || stored.execution_id != run.execution_id
    || stored.capsule_id != run.capsule_id
    || stored.capsule_hash != run.capsule_hash
    || stored.run_type != run.run_type
    || stored.baseline_run_id != run.baseline_run_id
    || stored.intervention != run.intervention
    || stored.trial_number != run.trial_number)

module _ (host_of : String → String) where
  unfoldable pub put_run : Bool → ReplayRun → Store → Result StoreError Store
  put_run ctx run s = do
    reject ctx internal
    or_fail (validate_run host_of run) internal
    reject (has run.run_id s.runs) conflict
    authorize run (lookup run.baseline_run_id s.runs)
    ok (record s { runs = insert run.run_id run s.runs })

  unfoldable pub transition_run : Bool → RunStatus → ReplayRun → Store → Result StoreError Store
  transition_run ctx from run s = do
    reject ctx internal
    reject (not (can_transition from run.status) || is_err (validate_run host_of run))
        invalid_lifecycle
    stored ← found_or not_found (lookup run.run_id s.runs)
    reject (not (same_identity from stored run)) invalid_lifecycle
    ok (record s { runs = insert run.run_id run s.runs })

unfoldable pub put_diff : Bool → ReplayDiff → Store → Result StoreError Store
put_diff ctx d s = do
  reject ctx internal
  or_fail (validate_diff d) internal
  reject (has d.diff_id s.diffs) conflict
  ok (record s { diffs = insert d.diff_id d s.diffs })

unfoldable pub get_diff : Bool → String → Store → Result StoreError ReplayDiff
get_diff ctx id s = reject ctx internal >> found_or not_found (lookup id s.diffs)
