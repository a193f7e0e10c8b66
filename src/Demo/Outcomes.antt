-- ===== src/Demo/Outcomes.antt =====
-- cmd/demo-checkout: the outcomes that `Process` waits for are those of the attempts that it launched.
use clausa_lens.Prelude.{
  ℕ, suc, ◌+◌, ◌≤◌, String, Bool, true, false, ◌||◌, some, List, [], ◌∷◌, ◌++◌, length,
  length-append, any, ◌≡◌, ◌⊎◌, refl, arith, ℤ, Option-cases, inl, inr, subst,
}
use clausa_lens.Demo.Ledger.{Ledger}
use clausa_lens.Demo.Checkout.{
  Checkout, Stage, Action, unlaunched, done, failed, lost, selecting, collecting, responded, start,
  on_timer, take_outcome, returned, step, run,
}

abbrev pub was_launched : Stage → ℕ
was_launched unlaunched = 0
was_launched _ = 1

-- An attempt that is over has sent its outcome.
abbrev pub is_over : Stage → ℕ
is_over done = 1
is_over failed = 1
is_over lost = 1
is_over _ = 0

abbrev pub erred : Stage → Bool
erred failed = true
erred lost = true
erred _ = false

abbrev pub any_bad : List Bool → Bool
any_bad outcomes = any (λ bad. bad) outcomes

-- What every state of `Process` satisfies.
pub record Waits (s : Checkout) : Type 0 where
  pub launched : s.attempts_launched ≡ 1 + was_launched s.second
  pub first_launched : was_launched s.first ≡ 1
  pub sums : length s.sent + length s.outcomes ≡ is_over s.first + is_over s.second
  pub bad : (any_bad s.sent || any_bad s.outcomes) ≡ (erred s.first || erred s.second)
  pub before : s.phase ≡ selecting → (s.second ≡ unlaunched) × (length s.outcomes ≡ 0)
  pub within : length s.outcomes ≤ s.attempts_launched
  pub waited :
      s.phase ≡ responded → (s.attempts_launched ≤ length s.outcomes) × (any_bad s.outcomes ≡ false)

any_bad-append : (xs : List Bool) (b : Bool) → any_bad (xs ++ b ∷ []) ≡ (any_bad xs || b)
any_bad-append [] b = ground arith
any_bad-append (x ∷ xs) b = ground (arith, any_bad-append xs b)

-- A taken outcome leaves all else as it is.
pub record Takes (s t : Checkout) : Type 0 where
  pub sent : List Bool
  pub outcomes : List Bool
  pub is : t ≡ record s { phase = collecting; sent = sent; outcomes = outcomes }
  pub one_more : length outcomes ≡ suc (length s.outcomes)

pub take_outcome-Takes :
    (s t : Checkout) (sent : List Bool) → take_outcome s sent ≡ some t → Takes s t
unfolding take_outcome
take_outcome-Takes s t [] h = absurd (ground arith)
take_outcome-Takes s t (x ∷ sent) h = record {
  sent = sent;
  outcomes = x ∷ s.outcomes;
  is = ground arith;
  one_more = omega arith;
}

pub waiting-Takes : (s t : Checkout) → step Action.receive s ≡ some t → Takes s t
unfolding step
waiting-Takes s t h = take_outcome-Takes s t s.sent (ground arith)

pub collecting-Takes : (s t : Checkout) → step Action.collect s ≡ some t → Takes s t
unfolding step
collecting-Takes s t h = take_outcome-Takes s t s.sent (ground arith)

take_outcome-Waits :
    (s t : Checkout) (sent : List Bool)
    → Waits s
    → s.sent ≡ sent
    → suc (length s.outcomes) ≤ s.attempts_launched
    → take_outcome s sent ≡ some t
    → Waits t
unfolding take_outcome
take_outcome-Waits s t [] c e room h = absurd (ground arith)
take_outcome-Waits s t (x ∷ sent) c e room h =
    let sums = rw e at c.sums in
    let bad = rw e at c.bad in
    record {
      launched = ground (arith, c.launched);
      first_launched = ground (arith, c.first_launched);
      sums = ground (arith, sums);
      bad = ground (arith, bad);
      before = ground arith;
      within = ground arith;
      waited = ground arith;
    }

pub step-Waits : (a : Action) (s t : Checkout) → Waits s → step a s ≡ some t → Waits t
unfolding step on_timer returned
step-Waits Action.receive s t c h =
    take_outcome-Waits s t s.sent c refl (ground (arith, c.before, c.launched)) (ground arith)
step-Waits Action.collect s t c h =
    take_outcome-Waits s t s.sent c refl (ground arith) (ground arith)
step-Waits a s t c h = record {
  launched = ground (arith, c.launched, c.before);
  first_launched = ground (arith, c.first_launched);
  sums = ground (
    arith,
    c.sums,
    c.before,
    length-append s.sent (true ∷ []),
    length-append s.sent (false ∷ []),
  );
  bad = ground (arith, c.bad, c.before, any_bad-append s.sent true, any_bad-append s.sent false);
  before = ground (arith, c.before);
  within = ground (arith, c.within, c.before, c.launched);
  waited = ground (arith, c.waited);
}

pub run-Waits :
    (schedule : List Action) (s t : Checkout) → Waits s → run schedule s ≡ some t → Waits t
unfolding run
run-Waits [] s t c h = subst Waits (ground arith) c
run-Waits (a ∷ schedule) s t c h = elim (Option-cases (step a s)) [
  | inl stuck ↦ absurd (ground arith)
  | inr (u, made) ↦ run-Waits schedule u t (step-Waits a s u c made) (ground arith)
]

pub start-Waits : (limit : ℤ) (id : String) (ledger : Ledger) → Waits (start limit id ledger)
unfolding start
start-Waits limit id ledger = record {
  launched = refl;
  first_launched = refl;
  sums = refl;
  bad = refl;
  before = λ k. (refl, refl);
  within = omega arith;
  waited = λ k. absurd (cc k);
}

over_launched : (s : Stage) → is_over s ≤ was_launched s
over_launched s = ground arith

any_bad-nil : (xs : List Bool) → length xs ≡ 0 → any_bad xs ≡ false
any_bad-nil [] h = refl
any_bad-nil (x ∷ xs) h = absurd (omega (arith, h))

ended_well :
    (s : Stage) → is_over s ≡ was_launched s → erred s ≡ false → (s ≡ done) ⊎ (s ≡ unlaunched)
ended_well s over good = ground arith

-- A call that has returned a result has waited for every attempt, and none had an error.
pub Waits-responded :
    (t : Checkout)
    → Waits t
    → t.phase ≡ responded
    → (t.first ≡ done) × ((t.second ≡ done) ⊎ (t.second ≡ unlaunched))
Waits-responded t c h =
    let (enough, good) = c.waited h in
    let first = over_launched t.first in
    let second = over_launched t.second in
    let quiet =
      any_bad-nil t.sent
        (omega (arith, c.sums, c.launched, c.first_launched, enough, first, second)) in
    let fine : (erred t.first || erred t.second) ≡ false = ground (arith, c.bad) in
    (
      elim (ended_well t.first
          (omega (arith, c.sums, c.launched, c.first_launched, enough, first, second))
          (ground arith)) [ inl is ↦ is | inr is ↦ absurd (ground (arith, c.first_launched)) ],
      ended_well t.second
          (omega (arith, c.sums, c.launched, c.first_launched, enough, first, second))
          (ground arith),
    )
