-- ===== src/Examples/Store.antt =====
-- Tests of the store, and its theorems at concrete stores.
use mathlib.Core.List.{Memᴰ}
use clausa_lens.Core.Recovery.{Elsewhere, claimed_run_kept, claimed_run_reclaimed}
use clausa_lens.Core.Lease.{reclaim_expired_runs, stranded_runs, is_stranded, lease_expired}
use clausa_lens.Prelude.{
  All, ◌≤◌, ◌<◌, ◌+◌, arith, Bool, List, false, some, [], ◌∷◌, ok, err, ◌≡◌, refl, lookup, insert,
}
use clausa_lens.Contracts.RunEnums.{RunStatus}
use clausa_lens.Contracts.Run.{ReplayRun, can_transition}
use clausa_lens.Contracts.RunCheck.{validate_run}
use clausa_lens.Core.Store.{Store, new_store, invalid_lifecycle}
use clausa_lens.Core.Runs.{
  put_run, get_run, transition_run, authorize, check_baseline, eligible_baseline, same_identity,
}
use clausa_lens.Core.Lease.{claim_run}
use clausa_lens.Core.Steps.{Steps, Reached, put, transition, claim, here, next, fresh, step}
use clausa_lens.Core.Repository
use clausa_lens.Core.Repository.{
  Request, put_a_run, read_run, done, refused, a_run, view, serve_all, specify_all,
}
use clausa_lens.Core.Refinement.{serve_all-specify_all}
use clausa_lens.Core.Claims.{claim_once}
use clausa_lens.Core.Baselines.{Allows, Reached-baseline, Reached-valid}
use clausa_lens.Examples.Data.{host, baseline, validating, running, completed, what_if}
use clausa_lens.Examples.Data.{noon}
use clausa_lens.Replay.Worker.{reclaim_orphans, reclaim_orphans-Claimed}
use clausa_lens.Examples.Valid.{runs_valid}

abbrev with_run : ReplayRun → Store
with_run r = record new_store { runs = ("run-1", r) ∷ [] }

abbrev leased : ReplayRun → Store
leased r = record new_store { runs = ("run-1", r) ∷ []; lease_until = ("run-1", 130) ∷ [] }

abbrev with_what_if : Store
with_what_if = record new_store {
  runs = ("run-1", completed) ∷ ("run-2", what_if) ∷ [];
  lease_until = ("run-1", 130) ∷ [];
}

puts_baseline : put_run host false baseline new_store ≡ ok (with_run baseline)
unfolding put_run authorize insert lookup
puts_baseline = rw runs_valid.0 refl

claims : claim_run false 100 "run-1" 30 (with_run baseline) ≡ ok (leased validating, validating)
unfolding claim_run insert lookup
claims = refl

starts :
    transition_run host false RunStatus.validating running (leased validating) ≡ ok (leased running)
unfolding transition_run insert lookup same_identity can_transition
starts = rw runs_valid.2 refl

completes :
    transition_run host false RunStatus.running completed (leased running) ≡ ok (leased completed)
unfolding transition_run insert lookup same_identity can_transition
completes = rw runs_valid.3 refl

puts_what_if : put_run host false what_if (leased completed) ≡ ok with_what_if
unfolding put_run authorize check_baseline eligible_baseline insert lookup
puts_what_if = rw runs_valid.4 refl

abbrev reached_baseline : Reached host (with_run baseline)
reached_baseline = step fresh (put false baseline puts_baseline)

abbrev reached_completed : Reached host (leased completed)
reached_completed =
    step
      (step (step reached_baseline (claim false 100 "run-1" 30 validating claims))
        (transition false RunStatus.validating running starts))
      (transition false RunStatus.running completed completes)

abbrev reached_what_if : Reached host with_what_if
reached_what_if = step reached_completed (put false what_if puts_what_if)

at_what_if : lookup "run-2" with_what_if.runs ≡ some what_if
unfolding lookup
at_what_if = refl

abbrev to_completed : Steps host (leased validating) (leased completed)
to_completed =
    next (next here (transition false RunStatus.validating running starts))
      (transition false RunStatus.running completed completes)

claim_once_example : claim_run false 500 "run-1" 30 (leased completed) ≡ err invalid_lifecycle
claim_once_example =
    claim_once host false 100 "run-1" 30 validating (with_run baseline) (leased validating)
      (leased completed) claims to_completed 500 30

Reached-baseline_example :
    (b : ReplayRun) × (lookup "run-1" with_what_if.runs ≡ some b) × Allows what_if b
Reached-baseline_example = Reached-baseline host "run-2" reached_what_if at_what_if refl

Reached-valid_example : (what_if.run_id ≡ "run-2") × (validate_run host what_if ≡ ok tt)
Reached-valid_example = Reached-valid host "run-2" reached_what_if at_what_if

within : 120 ≤ 100 + 30
within = omega arith

after : 100 + 30 < 140
after = omega arith

reclaims_none : reclaim_expired_runs false 120 (leased validating) ≡ ok []
unfolding reclaim_expired_runs stranded_runs is_stranded lease_expired lookup
reclaims_none = refl

reclaims_it : reclaim_expired_runs false 140 (leased validating) ≡ ok (validating ∷ [])
unfolding reclaim_expired_runs stranded_runs is_stranded lease_expired lookup
reclaims_it = refl

claimed_run_kept_example : All (Elsewhere "run-1" (leased validating)) []
claimed_run_kept_example =
    claimed_run_kept false 100 "run-1" 30 validating (with_run baseline) (leased validating) claims
      120 [] within reclaims_none

claimed_run_reclaimed_example : Memᴰ validating (validating ∷ [])
claimed_run_reclaimed_example =
    claimed_run_reclaimed false 100 "run-1" 30 validating (with_run baseline) (leased validating)
      claims 140 (validating ∷ []) after reclaims_it

reclaim_orphans-Claimed_example :
    reclaim_orphans host false noon 140 (leased validating) ≡ ok (leased validating, [])
reclaim_orphans-Claimed_example =
    reclaim_orphans-Claimed host false noon 140 (leased validating) (validating ∷ []) reclaims_it
      (record { valid = runs_valid.1; status = refl }, tt)

-- A run is put, claimed twice, and read.
abbrev requests : List (Bool × Request)
requests =
    (false, put_a_run baseline)
    ∷ (false, Repository.claim 100 "run-1" 30)
    ∷ (false, Repository.claim 120 "run-1" 30)
    ∷ (false, read_run "run-1")
    ∷ []

serve_all-specify_all_example :
    (view (serve_all host requests new_store).0 ≡ (specify_all host requests (view new_store)).0)
    × ((serve_all host requests new_store).1 ≡ (specify_all host requests (view new_store)).1)
serve_all-specify_all_example = serve_all-specify_all host requests new_store

replies :
    (serve_all host requests new_store).1
    ≡ done ∷ a_run validating ∷ refused invalid_lifecycle ∷ a_run validating ∷ []
unfolding serve_all put_run authorize claim_run get_run insert lookup
replies = rw runs_valid.0 refl
