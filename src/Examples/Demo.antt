-- ===== src/Examples/Demo.antt =====
-- Tests of the demo checkout: the schedule of a timeout with a retry.
use clausa_lens.Prelude.{
  ◌+◌, ◌≤◌, Bool, true, false, ◌&&◌, none, some, List, [], ◌∷◌, length, ◌≡◌, ◌⊎◌, refl, pos, ◌<ℤ◌,
  insert, lookup, decimal_text, if◌then◌else◌,
}
use clausa_lens.Checkout.Fixtures.{int_text}
use clausa_lens.Demo.Ledger.{Ledger, commit_locked, effect_key}
use clausa_lens.Demo.Checkout.{
  Checkout, Action, done, responded, authorize_first, authorize_second, commit_first, commit_second,
  timer, collect, respond, take_outcome, returned, refused, start, on_timer, step, run,
}
use clausa_lens.Demo.Effects.{effects_of_checkout}
use clausa_lens.Demo.Once.{one_effect_of_checkout}
use clausa_lens.Demo.Ends.{checkout_ends, Enabled}

abbrev ledger : Bool → Ledger
ledger dedup = record { dedup_enabled = dedup; effects = []; first_effect_by_checkout = [] }

abbrev retried : List Action
retried =
    authorize_first ∷ timer ∷ authorize_second ∷ commit_first ∷ commit_second ∷ collect ∷ collect
    ∷ respond ∷ []

abbrev after : Ledger → Checkout
after l = record {
  max_attempts = pos 2;
  checkout_id = "c";
  phase = responded;
  first = done;
  second = done;
  attempts_launched = 2;
  timed_out = true;
  sent = [];
  outcomes = false ∷ false ∷ [];
  ledger = l;
  attempts_authorized = 2;
}

abbrev twice : Ledger
twice = record (ledger false) { effects = "c-1" ∷ "c-2" ∷ [] }

abbrev once : Ledger
once = record (ledger true) { effects = "c-1" ∷ []; first_effect_by_checkout = ("c", "c-1") ∷ [] }

runs_twice : run retried (start (pos 2) "c" (ledger false)) ≡ some (after twice)
unfolding run step on_timer take_outcome returned start commit_locked effect_key int_text
    decimal_text
runs_twice = refl

runs_once : run retried (start (pos 2) "c" (ledger true)) ≡ some (after once)
unfolding run step on_timer take_outcome returned start commit_locked effect_key int_text
    decimal_text lookup insert
runs_once = refl

effects_of_checkout_example :
    (length twice.effects ≡ 0 + 2)
    × ((after twice).attempts_launched ≡ (if true && (pos 1 <ℤ pos 2) then 2 else 1))
effects_of_checkout_example =
    effects_of_checkout (pos 2) "c" (ledger false) retried (after twice) refl runs_twice refl

new_checkout : lookup "c" (ledger true).first_effect_by_checkout ≡ none
unfolding lookup
new_checkout = refl

one_effect_of_checkout_example : length once.effects ≡ 0 + 1
one_effect_of_checkout_example =
    one_effect_of_checkout (pos 2) "c" (ledger true) retried (after once) refl new_checkout
      runs_once refl

checkout_ends_example :
    (length retried ≤ 8)
    × (((after twice).phase ≡ responded) ⊎ ((after twice).phase ≡ refused) ⊎ Enabled (after twice))
checkout_ends_example = checkout_ends (pos 2) "c" (ledger false) retried (after twice) runs_twice
