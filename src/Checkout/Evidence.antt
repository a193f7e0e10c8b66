-- ===== src/Checkout/Evidence.antt =====
-- internal/systempack/checkout/oracle.go: what the loop of `evaluate` finds in the events of an
-- operation.
use clausa_lens.Prelude.{
  suc, ◌+◌, Bool, ◌&&◌, ◌||◌, not, List, [], ◌∷◌, length, length-append, any, select, ◌==◌,
  string_eq, int_eq, pos, ◌<ℤ◌, ◌≡◌, refl, arith, ltb, if◌then◌else◌,
}
use clausa_lens.Contracts.EventEnums.{EventType, event_type_eq, operation_kind_eq}
use clausa_lens.Contracts.Event.{ExecutionEvent}
use clausa_lens.Checkout.Oracle.{
  Evidence, no_evidence, observe, observe_type, observe_all, evidence_matches, is_committed,
}

abbrev pub is_timeout : ExecutionEvent → Bool
is_timeout e = e.event_type == EventType.timeout

abbrev pub is_retry : ExecutionEvent → Bool
is_retry e = e.event_type == EventType.retry

abbrev pub is_later_attempt : ExecutionEvent → Bool
is_later_attempt e = not (e.attempt <ℤ pos 2)

abbrev pub is_effect : ExecutionEvent → Bool
is_effect e = e.event_type == EventType.effect && is_committed e

-- The failure that the pack looks for, read off the events of one operation: a timeout, a retry, a
-- second attempt, and two committed effects.
unfoldable pub shows_duplicate : List ExecutionEvent → Bool
shows_duplicate es =
    any is_timeout es
    && any is_retry es
    && any is_later_attempt es
    && ltb 1 (length (select is_effect es))

observe_timeout :
    (e : ExecutionEvent) (v : Evidence)
    → ((observe e v).has_timeout ≡ (is_timeout e || v.has_timeout))
      × ((observe e v).has_retry ≡ (is_retry e || v.has_retry))
      × (not ((observe e v).max_attempt <ℤ pos 2)
          ≡ (is_later_attempt e || not (v.max_attempt <ℤ pos 2)))
unfolding observe observe_type
observe_timeout e v = ground arith

observe_effects :
    (e : ExecutionEvent) (v : Evidence)
    → length (observe e v).committed_effects
      ≡ (if is_effect e then suc (length v.committed_effects) else length v.committed_effects)
unfolding observe observe_type
observe_effects e v = ground (arith, length-append v.committed_effects (e ∷ []))

observe_all_flags :
    (es : List ExecutionEvent) (v : Evidence)
    → ((observe_all es v).has_timeout ≡ (any is_timeout es || v.has_timeout))
      × ((observe_all es v).has_retry ≡ (any is_retry es || v.has_retry))
      × (not ((observe_all es v).max_attempt <ℤ pos 2)
          ≡ (any is_later_attempt es || not (v.max_attempt <ℤ pos 2)))
unfolding observe_all
observe_all_flags [] v = (refl, refl, refl)
observe_all_flags (e ∷ es) v =
    let (a, b, c) = observe_all_flags es (observe e v) in
    let (x, y, z) = observe_timeout e v in
    (ground (arith, a, x), ground (arith, b, y), ground (arith, c, z))

observe_all_effects :
    (es : List ExecutionEvent) (v : Evidence)
    → length (observe_all es v).committed_effects
      ≡ length (select is_effect es) + length v.committed_effects
unfolding observe_all
observe_all_effects [] v = omega arith
observe_all_effects (e ∷ es) v =
    ground (arith, observe_all_effects es (observe e v), observe_effects e v)

-- The evidence that the loop collects matches exactly where the events show the failure.
pub evidence_matches-observe_all :
    (es : List ExecutionEvent) → evidence_matches (observe_all es no_evidence) ≡ shows_duplicate es
unfolding evidence_matches shows_duplicate
evidence_matches-observe_all es =
    let (a, b, c) = observe_all_flags es no_evidence in
    ground (arith, a, b, c, observe_all_effects es no_evidence)
