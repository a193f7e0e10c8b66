-- ===== src/Demo/Checkout.antt =====
-- cmd/demo-checkout/service/service.go: `Process`, with the goroutines that it launches.
-- A schedule is a list of actions: an attempt's payment returns or fails, an attempt commits to the
-- ledger or the ledger's client fails, before or after the commit, and an attempt that is over sends
-- its outcome to the channel; the `select` takes an outcome or the timer, the loop takes further outcomes,
-- and the call returns once it has as many as it launched attempts. The timer may fire at any moment of
-- the `select`, so no clock is modelled. The channel has room for both outcomes, as it has where the
-- policy allows two attempts. Events are not modelled, and the recorder is taken not to fail.
use clausa_lens.Prelude.{
  ℕ, suc, String, Bool, true, false, ◌&&◌, not, Option, none, some, List, [], ◌∷◌, ◌++◌, length,
  any, ltb, ℤ, pos, ◌<ℤ◌, if◌then◌else◌,
}
use clausa_lens.Demo.Ledger.{Ledger, commit_locked, effect_key}

-- A goroutine of `launchAttempt`: `done` has ended without an error, `failed` with one and without a
-- commit, and `lost` with an error of the ledger's client after the ledger has committed.
pub data Stage : Type 0 where
  unlaunched paying paid done failed lost : Stage

-- `responded` has returned a result, and `refused` the first error of the outcomes.
pub data Phase : Type 0 where
  selecting collecting responded refused : Phase

-- `sent` are the outcomes in the channel, in their order, and `outcomes` those that were taken, the
-- latest first, each by whether it has an error.
pub record Checkout : Type 0 where
  pub max_attempts : ℤ
  pub checkout_id : String
  pub phase : Phase
  pub first : Stage
  pub second : Stage
  pub attempts_launched : ℕ
  pub timed_out : Bool
  pub sent : List Bool
  pub outcomes : List Bool
  pub ledger : Ledger
  pub attempts_authorized : ℕ

pub data Action : Type 0 where
  authorize_first authorize_second : Action
  payment_fails_first payment_fails_second : Action
  commit_first commit_second : Action
  ledger_fails_first ledger_fails_second : Action
  reply_lost_first reply_lost_second : Action
  receive timer collect respond : Action

-- The state in which `Process` reaches its `select`: attempt 1 is launched.
unfoldable pub start : ℤ → String → Ledger → Checkout
start max_attempts checkout_id ledger = record {
  max_attempts = max_attempts;
  checkout_id = checkout_id;
  phase = selecting;
  first = paying;
  second = unlaunched;
  attempts_launched = 1;
  timed_out = false;
  sent = [];
  outcomes = [];
  ledger = ledger;
  attempts_authorized = 0;
}

abbrev is_paying : Stage → Bool
is_paying paying = true
is_paying _ = false

abbrev is_paid : Stage → Bool
is_paid paid = true
is_paid _ = false

abbrev in_select : Phase → Bool
in_select selecting = true
in_select _ = false

abbrev in_collect : Phase → Bool
in_collect collecting = true
in_collect _ = false

-- `case <-timer.C`: a second attempt is launched if the policy allows it.
unfoldable pub on_timer : Checkout → Checkout
on_timer s =
    if pos 1 <ℤ s.max_attempts
    then record s { phase = collecting; timed_out = true; second = paying; attempts_launched = 2 }
    else record s { phase = collecting; timed_out = true }

-- `<-done`, which waits while the channel is empty.
unfoldable pub take_outcome : Checkout → List Bool → Option Checkout
take_outcome s [] = none
take_outcome s (bad ∷ sent) =
    some (record s { phase = collecting; sent = sent; outcomes = bad ∷ s.outcomes })

-- The return, with the first error of the outcomes if any has one.
unfoldable pub returned : Checkout → Checkout
returned s =
    if any (λ bad. bad) s.outcomes
    then record s { phase = refused }
    else record s { phase = responded }

-- One action; `none` where it is not enabled.
unfoldable pub step : Action → Checkout → Option Checkout
unfolding on_timer take_outcome returned
step authorize_first s =
    if is_paying s.first
    then some (record s { first = paid; attempts_authorized = suc s.attempts_authorized })
    else none
step authorize_second s =
    if is_paying s.second
    then some (record s { second = paid; attempts_authorized = suc s.attempts_authorized })
    else none
step payment_fails_first s =
    if is_paying s.first
    then some (record s { first = failed; sent = s.sent ++ true ∷ [] })
    else none
step payment_fails_second s =
    if is_paying s.second
    then some (record s { second = failed; sent = s.sent ++ true ∷ [] })
    else none
step commit_first s =
    if is_paid s.first
    then some (record s {
      first = done;
      sent = s.sent ++ false ∷ [];
      ledger = (commit_locked s.checkout_id (effect_key s.checkout_id (pos 1)) s.ledger).0;
    })
    else none
step commit_second s =
    if is_paid s.second
    then some (record s {
      second = done;
      sent = s.sent ++ false ∷ [];
      ledger = (commit_locked s.checkout_id (effect_key s.checkout_id (pos 2)) s.ledger).0;
    })
    else none
step ledger_fails_first s =
    if is_paid s.first then some (record s { first = failed; sent = s.sent ++ true ∷ [] }) else none
step ledger_fails_second s =
    if is_paid s.second
    then some (record s { second = failed; sent = s.sent ++ true ∷ [] })
    else none
step reply_lost_first s =
    if is_paid s.first
    then some (record s {
      first = lost;
      sent = s.sent ++ true ∷ [];
      ledger = (commit_locked s.checkout_id (effect_key s.checkout_id (pos 1)) s.ledger).0;
    })
    else none
step reply_lost_second s =
    if is_paid s.second
    then some (record s {
      second = lost;
      sent = s.sent ++ true ∷ [];
      ledger = (commit_locked s.checkout_id (effect_key s.checkout_id (pos 2)) s.ledger).0;
    })
    else none
step receive s = if in_select s.phase then take_outcome s s.sent else none
step timer s = if in_select s.phase then some (on_timer s) else none
step collect s =
    if in_collect s.phase && ltb (length s.outcomes) s.attempts_launched
    then take_outcome s s.sent
    else none
step respond s =
    if in_collect s.phase && not (ltb (length s.outcomes) s.attempts_launched)
    then some (returned s)
    else none

-- A schedule, as far as every action is enabled.
unfoldable pub run : List Action → Checkout → Option Checkout
run [] s = some s
run (a ∷ rest) s = elim (step a s) [ none ↦ none | some t ↦ run rest t ]
