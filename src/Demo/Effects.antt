-- ===== src/Demo/Effects.antt =====
-- cmd/demo-checkout and cmd/demo-ledger: the effects of one checkout without deduplication.
use clausa_lens.Prelude.{
  ℕ, suc, ◌+◌, String, true, false, ◌&&◌, some, List, [], ◌∷◌, length, length-append, ◌≡◌, refl, ap,
  arith, ℤ, pos, ◌<ℤ◌, if◌then◌else◌, Option-cases, inl, inr, subst, ◌∙◌, string_eq,
}
use clausa_lens.Demo.Ledger.{Ledger, commit_locked, effect_key}
use clausa_lens.Demo.Outcomes.{
  Waits, was_launched, run-Waits, start-Waits, Waits-responded, Takes, waiting-Takes,
  collecting-Takes,
}
use clausa_lens.Demo.Checkout.{
  take_outcome, returned, lost, Checkout, Stage, Action, unlaunched, done, selecting, responded,
  start, on_timer, step, run,
}

-- How many attempts have committed.
abbrev one_if_committed : Stage → ℕ
one_if_committed done = 1
one_if_committed lost = 1
one_if_committed _ = 0

-- What every state of `Process` satisfies without deduplication, from `n` effects on.
record Counts (n : ℕ) (s : Checkout) : Type 0 where
  pub open_ledger : s.ledger.dedup_enabled ≡ false
  pub effects : length s.ledger.effects ≡ n + one_if_committed s.first + one_if_committed s.second
  pub before : s.phase ≡ selecting → (s.second ≡ unlaunched) × (s.timed_out ≡ false)
  pub second_chance : (s.timed_out && (pos 1 <ℤ s.max_attempts)) ≡ true → was_launched s.second ≡ 1
  pub no_second : (s.timed_out && (pos 1 <ℤ s.max_attempts)) ≡ false → s.second ≡ unlaunched

commit_open :
    (checkout_id effect : String) (l : Ledger)
    → l.dedup_enabled ≡ false
    → ((commit_locked checkout_id effect l).0.dedup_enabled ≡ false)
      × (length (commit_locked checkout_id effect l).0.effects ≡ suc (length l.effects))
unfolding commit_locked
commit_open checkout_id effect l h = ground (arith, length-append l.effects (effect ∷ []))

Takes-Counts : (n : ℕ) (s t : Checkout) → Counts n s → Takes s t → Counts n t
Takes-Counts n s t c k = rw k.is (record {
  open_ledger = c.open_ledger;
  effects = c.effects;
  before = λ j. absurd (cc j);
  second_chance = c.second_chance;
  no_second = c.no_second;
})

step-Counts : (n : ℕ) (a : Action) (s t : Checkout) → Counts n s → step a s ≡ some t → Counts n t
unfolding step on_timer take_outcome returned
step-Counts n Action.receive s t c h = Takes-Counts n s t c (waiting-Takes s t h)
step-Counts n Action.collect s t c h = Takes-Counts n s t c (collecting-Takes s t h)
step-Counts n a s t c h = record {
  open_ledger = ground (
    arith,
    commit_open s.checkout_id (effect_key s.checkout_id (pos 1)) s.ledger c.open_ledger,
    commit_open s.checkout_id (effect_key s.checkout_id (pos 2)) s.ledger c.open_ledger,
  );
  effects = ground (
    arith,
    commit_open s.checkout_id (effect_key s.checkout_id (pos 1)) s.ledger c.open_ledger,
    commit_open s.checkout_id (effect_key s.checkout_id (pos 2)) s.ledger c.open_ledger,
  );
  before = ground arith;
  second_chance = ground arith;
  no_second = ground arith;
}

run-Counts :
    (n : ℕ) (schedule : List Action) (s t : Checkout)
    → Counts n s
    → run schedule s ≡ some t
    → Counts n t
unfolding run
run-Counts n [] s t c h = subst (Counts n) (ground arith) c
run-Counts n (a ∷ schedule) s t c h = elim (Option-cases (step a s)) [
  | inl stuck ↦ absurd (ground arith)
  | inr (u, made) ↦ run-Counts n schedule u t (step-Counts n a s u c made) (ground arith)
]

start-Counts :
    (limit : ℤ) (id : String) (ledger : Ledger)
    → ledger.dedup_enabled ≡ false
    → Counts (length ledger.effects) (start limit id ledger)
unfolding start
start-Counts limit id ledger h = record {
  open_ledger = h;
  effects = omega arith;
  before = λ k. (refl, refl);
  second_chance = λ k. absurd (cc k);
  no_second = λ k. refl;
}

kept_policy : (a : Action) (s t : Checkout) → step a s ≡ some t → t.max_attempts ≡ s.max_attempts
unfolding step on_timer take_outcome returned
kept_policy Action.receive s t h = ap (λ (u : Checkout). u.max_attempts) (waiting-Takes s t h).is
kept_policy Action.collect s t h = ap (λ (u : Checkout). u.max_attempts) (collecting-Takes s t h).is
kept_policy a s t h = ground arith

run-kept_policy :
    (schedule : List Action) (s t : Checkout)
    → run schedule s ≡ some t
    → t.max_attempts ≡ s.max_attempts
unfolding run
run-kept_policy [] s t h = ground arith
run-kept_policy (a ∷ schedule) s t h = elim (Option-cases (step a s)) [
  | inl stuck ↦ absurd (ground arith)
  | inr (u, made) ↦ run-kept_policy schedule u t (ground arith) ∙ kept_policy a s u made
]

Counts-responded :
    (n : ℕ) (t : Checkout)
    → Counts n t
    → Waits t
    → t.phase ≡ responded
    → (length t.ledger.effects ≡ n + t.attempts_launched)
      × (t.attempts_launched ≡ (if t.timed_out && (pos 1 <ℤ t.max_attempts) then 2 else 1))
Counts-responded n t c w h =
    let over = Waits-responded t w h in
    (
      ground (arith, c.effects, w.launched, over),
      ground (arith, w.launched, c.second_chance, c.no_second),
    )

-- Against a ledger without deduplication, whatever the schedule, a checkout
-- that has responded has added to the ledger one effect for each attempt that it launched. These are
-- two where the timer fired and the policy allows a second attempt, and one otherwise.
pub effects_of_checkout :
    (limit : ℤ) (id : String) (ledger : Ledger) (schedule : List Action) (t : Checkout)
    → ledger.dedup_enabled ≡ false
    → run schedule (start limit id ledger) ≡ some t
    → t.phase ≡ responded
    → (length t.ledger.effects ≡ length ledger.effects + t.attempts_launched)
      × (t.attempts_launched ≡ (if t.timed_out && (pos 1 <ℤ limit) then 2 else 1))
unfolding start
effects_of_checkout limit id ledger schedule t plain h ended =
    let c = run-Counts _ schedule _ t (start-Counts limit id ledger plain) h in
    let w = run-Waits schedule _ t (start-Waits limit id ledger) h in
    subst
      (λ m.
        (length t.ledger.effects ≡ length ledger.effects + t.attempts_launched)
        × (t.attempts_launched ≡ (if t.timed_out && (pos 1 <ℤ m) then 2 else 1)))
      (run-kept_policy schedule (start limit id ledger) t h) (Counts-responded _ t c w ended)
