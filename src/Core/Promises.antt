-- ===== src/Core/Promises.antt =====
-- internal/core/store.go: the tests of runs are those that the repository promises.
use clausa_lens.Prelude.{Option, none, some, ◌≡◌, arith, string_eq, int_eq, option_eq}
use clausa_lens.Contracts.RunEnums.{RunStatus, run_type_eq, run_status_eq, outcome_eq, verdict_eq}
use clausa_lens.Contracts.Run.{ReplayRun, can_transition, intervention_eq}
use clausa_lens.Core.Runs.{authorize, check_baseline, eligible_baseline, same_identity}
use clausa_lens.Core.Repository.{follows, continues, reproduced, permitted}

pub can_transition-follows : (from to : RunStatus) → can_transition from to ≡ follows from to
unfolding can_transition follows
can_transition-follows from to = ground arith

pub same_identity-continues :
    (from : RunStatus) (old r : ReplayRun) → same_identity from old r ≡ continues from old r
unfolding same_identity continues
same_identity-continues from old r = ground arith

eligible_baseline-reproduced : (r b : ReplayRun) → eligible_baseline r b ≡ reproduced r b
unfolding eligible_baseline
eligible_baseline-reproduced r b = ground arith

pub authorize-permitted : (r : ReplayRun) (b : Option ReplayRun) → authorize r b ≡ permitted r b
unfolding authorize check_baseline permitted
authorize-permitted r none = ground arith
authorize-permitted r (some b) = ground (arith, eligible_baseline-reproduced r b)
