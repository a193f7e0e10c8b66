-- ===== src/Examples/Checkout.antt =====
-- Tests of the checkout pack on a timeout, a retry and two committed effects.
use clausa_lens.Prelude.{List, [], ◌∷◌, length, get_elem?, any, All, ◌≡◌}
use clausa_lens.Contracts.EventEnums.{EventType}
use clausa_lens.Contracts.Event.{ExecutionEvent}
use clausa_lens.Checkout.Oracle.{evaluate, result_matched, events_for_operation}
use clausa_lens.Checkout.Evidence.{shows_duplicate}
use clausa_lens.Checkout.Detect.{evaluate-shows_duplicate}
use clausa_lens.Checkout.Align.{align}
use clausa_lens.Checkout.Alignment.{Paired}
use clausa_lens.Checkout.Occurrence.{Answered, like, align-occurrence}
use clausa_lens.Checkout.Itself.{align-itself, itself}
use clausa_lens.Examples.Data.{event, events}

abbrev elsewhere : ExecutionEvent
elsewhere = record (event "ev-5" EventType.start) { logical_operation_id = "checkout-43" }

abbrev mixed : List ExecutionEvent
mixed = elsewhere ∷ events

abbrev before : List ExecutionEvent
before = elsewhere ∷ event "ev-1" EventType.timeout ∷ []

abbrev after : List ExecutionEvent
after = event "ev-3" EventType.effect ∷ event "ev-4" EventType.effect ∷ []

evaluate-shows_duplicate_example :
    result_matched (evaluate mixed)
    ≡ any
        (λ (e : ExecutionEvent).
          shows_duplicate (events_for_operation mixed e.logical_operation_id))
        mixed
evaluate-shows_duplicate_example = evaluate-shows_duplicate mixed

align-itself_example :
    align mixed mixed ≡ record { matched = itself mixed; added = []; removed = []; changed = [] }
align-itself_example = align-itself mixed

-- The second of four events, against them all: it is the first of its kind.
align-occurrence_example :
    All (Paired mixed events) (align mixed events).matched
    × Answered
        (event "ev-2" EventType.retry)
        (get_elem?
          (like (event "ev-2" EventType.retry) events)
          (length (like (event "ev-2" EventType.retry) before)))
        (align mixed events).matched
        (align mixed events).removed
align-occurrence_example = align-occurrence before after events (event "ev-2" EventType.retry)
