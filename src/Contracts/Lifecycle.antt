-- ===== src/Contracts/Lifecycle.antt =====
-- internal/contracts/contracts.go: the life of a run's status under `CanTransitionReplayRun`.
use clausa_lens.Prelude.{ℕ, suc, ◌+◌, ◌≤◌, ◌<◌, ◌≡◌, refl, true, false, arith}
use clausa_lens.Contracts.RunEnums.{RunStatus, run_status_eq}
use clausa_lens.Contracts.Run.{can_transition, is_terminal}

-- How far a status is from `CREATED`.
abbrev pub progress : RunStatus → ℕ
progress RunStatus.created = 0
progress RunStatus.validating = 1
progress RunStatus.running = 2
progress RunStatus.completed = 3
progress RunStatus.failed = 3
progress RunStatus.blocked = 3
progress (RunStatus.other s) = 0

-- The legal transitions that lead from one status to another, counted.
pub data Legal (from : RunStatus) : RunStatus → ℕ → Type 0 where
  here : Legal from from 0
  next :
      {at : RunStatus} {n : ℕ} (to : RunStatus)
      → Legal from at n
      → can_transition at to ≡ true
      → Legal from to (suc n)

pub can_transition-progress :
    (from to : RunStatus)
    → can_transition from to ≡ true
    → (progress from < progress to) × (is_terminal from ≡ false)
unfolding can_transition is_terminal
can_transition-progress from to h = ground arith

Legal-progress : {from to : RunStatus} {n : ℕ} → Legal from to n → progress from + n ≤ progress to
Legal-progress here = omega arith
Legal-progress (next {at} to p h) = omega (arith, Legal-progress p, can_transition-progress at to h)

progress-le : (s : RunStatus) → progress s ≤ 3
progress-le s = ground arith

-- A run that is COMPLETED, FAILED or BLOCKED makes no further transition: whatever legal
-- transitions lead on from it, there are none of them.
Legal-terminal :
    {from to : RunStatus} {n : ℕ}
    → Legal from to n
    → is_terminal from ≡ true
    → (to ≡ from) × (n ≡ 0)
Legal-terminal here t = (refl, refl)
Legal-terminal {from} (next {at} to p h) t =
    let (same, none_made) = Legal-terminal p t in
    let stuck = (can_transition-progress at to h).1 in
    let terminal = rw same at stuck in cc (terminal, t)

-- Whatever legal transitions lead from one status to another, there are at most three of them, and
-- each takes the run further from CREATED.
Legal-length :
    {from to : RunStatus} {n : ℕ} → Legal from to n → (progress from + n ≤ progress to) × (n ≤ 3)
Legal-length {to} p = (Legal-progress p, omega (arith, Legal-progress p, progress-le to))
