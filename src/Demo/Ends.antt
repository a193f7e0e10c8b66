-- ===== src/Demo/Ends.antt =====
-- cmd/demo-checkout: how a schedule of `Process` goes on.
use clausa_lens.Prelude.{
  ℕ, suc, ◌+◌, ◌-◌, ◌≤◌, ◌<◌, String, Bool, nat_beq, true, some, is_some, List, [], ◌∷◌, length,
  ltb, ◌≡◌, ◌≢◌, ◌⊎◌, refl, arith, ℤ, Option-cases, Bool-cases, inl, inr, subst,
}
use clausa_lens.Demo.Ledger.{Ledger}
use clausa_lens.Demo.Checkout.{
  Checkout, Stage, Phase, Action, unlaunched, paying, paid, selecting, collecting, responded,
  refused, authorize_first, authorize_second, commit_first, commit_second, timer, collect, respond,
  start, on_timer, take_outcome, returned, step, run,
}
use clausa_lens.Demo.Outcomes.{
  Waits, is_over, was_launched, step-Waits, start-Waits, waiting-Takes, collecting-Takes,
}

-- The actions that can still come.
abbrev stage_left : Stage → ℕ
stage_left unlaunched = 2
stage_left paying = 2
stage_left paid = 1
stage_left _ = 0

abbrev phase_left : Phase → ℕ
phase_left selecting = 2
phase_left collecting = 1
phase_left _ = 0

abbrev left : Checkout → ℕ
left s = phase_left s.phase + stage_left s.first + stage_left s.second + (2 - length s.outcomes)

selects : (s t : Checkout) → step Action.receive s ≡ some t → s.phase ≡ selecting
unfolding step
selects s t h = ground arith

collects :
    (s t : Checkout)
    → step Action.collect s ≡ some t
    → (s.phase ≡ collecting) × (length s.outcomes < s.attempts_launched)
unfolding step
collects s t h = ground arith

launched_le : (s : Checkout) → Waits s → s.attempts_launched ≤ 2
launched_le s c = ground (arith, c.launched)

step-left : (a : Action) (s t : Checkout) → Waits s → step a s ≡ some t → suc (left t) ≤ left s
unfolding step on_timer returned
step-left Action.receive s t c h =
    let k = waiting-Takes s t h in
    let select = selects s t h in rw (k.is, select) (ground (arith, k.one_more, c.before select))
step-left Action.collect s t c h =
    let k = collecting-Takes s t h in
    let (phase, more) = collects s t h in
    rw (k.is, phase) (omega (arith, k.one_more, more, launched_le s c))
step-left a s t c h = ground (arith, c.before)

run-left :
    (schedule : List Action) (s t : Checkout)
    → Waits s
    → run schedule s ≡ some t
    → Waits t × (length schedule + left t ≤ left s)
unfolding run
run-left [] s t c h = subst (λ u. Waits u × (0 + left u ≤ left s)) (ground arith) (c, omega arith)
run-left (a ∷ schedule) s t c h = elim (Option-cases (step a s)) [
  | inl stuck ↦ absurd (ground arith)
  | inr (u, made) ↦
      let (waits, rest) = run-left schedule u t (step-Waits a s u c made) (ground arith) in
      (waits, omega (arith, rest, step-left a s u c made))
]

-- An action that the state allows.
abbrev pub Enabled : Checkout → Type 0
Enabled s = (a : Action) × (is_some (step a s) ≡ true)

Stage-cases : (s : Stage) → (s ≡ paying) ⊎ (s ≡ paid) ⊎ (is_over s ≡ was_launched s)
Stage-cases s = ground arith

-- An attempt that is launched and not over can go on.
first_goes_on : (s : Checkout) → is_over s.first ≢ was_launched s.first → Enabled s
unfolding step
first_goes_on s h = elim (Stage-cases s.first) [
  | inl pays ↦ (authorize_first, ground arith)
  | inr (inl commits) ↦ (commit_first, ground arith)
  | inr (inr same) ↦ absurd (h same)
]

second_goes_on : (s : Checkout) → is_over s.second ≢ was_launched s.second → Enabled s
unfolding step
second_goes_on s h = elim (Stage-cases s.second) [
  | inl pays ↦ (authorize_second, ground arith)
  | inr (inl commits) ↦ (commit_second, ground arith)
  | inr (inr same) ↦ absurd (h same)
]

-- While the call waits for outcomes and the channel is empty, an attempt is not over.
Waits-on :
    (s : Checkout)
    → Waits s
    → length s.sent ≡ 0
    → length s.outcomes < s.attempts_launched
    → Enabled s
Waits-on s c empty more = elim (Bool-cases (nat_beq (is_over s.first) (was_launched s.first))) [
  | inr other ↦ first_goes_on s (ground arith)
  | inl same ↦ second_goes_on s (ground (arith, c.sums, c.launched, c.first_launched))
]

with_room :
    (s : Checkout) (sent : List Bool)
    → Waits s
    → s.sent ≡ sent
    → s.phase ≡ collecting
    → length s.outcomes < s.attempts_launched
    → ltb (length s.outcomes) s.attempts_launched ≡ true
    → Enabled s
unfolding step take_outcome
with_room s [] c e p room more = Waits-on s c (rw e refl) room
with_room s (x ∷ sent) c e p room more = (collect, ground arith)

collecting-Enabled :
    (s : Checkout) (sent : List Bool) → Waits s → s.sent ≡ sent → s.phase ≡ collecting → Enabled s
unfolding step
collecting-Enabled s sent c e p = elim (Bool-cases (ltb (length s.outcomes) s.attempts_launched)) [
  | inr enough ↦ (respond, ground arith)
  | inl more ↦ with_room s sent c e p (ground arith) more
]

goes_on :
    (s : Checkout) (phase : Phase)
    → Waits s
    → s.phase ≡ phase
    → (phase ≡ responded) ⊎ (phase ≡ refused) ⊎ Enabled s
unfolding step
goes_on s selecting c p = inr (inr (timer, ground arith))
goes_on s collecting c p = inr (inr (collecting-Enabled s s.sent c refl p))
goes_on s responded c p = inl refl
goes_on s refused c p = inr (inl refl)

start-left : (limit : ℤ) (id : String) (ledger : Ledger) → left (start limit id ledger) ≤ 8
unfolding start
start-left limit id ledger = omega arith

-- `Process` ends: no schedule is longer than eight actions, and after any schedule the call has returned
-- a result or an error, or a further action is enabled. It never waits for an outcome that no attempt
-- will send.
pub checkout_ends :
    (limit : ℤ) (id : String) (ledger : Ledger) (schedule : List Action) (t : Checkout)
    → run schedule (start limit id ledger) ≡ some t
    → (length schedule ≤ 8) × ((t.phase ≡ responded) ⊎ (t.phase ≡ refused) ⊎ Enabled t)
checkout_ends limit id ledger schedule t h =
    let (waits, bound) = run-left schedule _ t (start-Waits limit id ledger) h in
    (omega (arith, bound, start-left limit id ledger), goes_on t t.phase waits refl)
