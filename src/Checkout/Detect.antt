-- ===== src/Checkout/Detect.antt =====
-- internal/systempack/checkout/oracle.go: which operation `evaluate` selects, and what it answers.
use clausa_lens.Prelude.{
  String, Bool, true, false, ◌||◌, List, [], ◌∷◌, any, All, ◌==◌, string_eq, ◌≡◌, refl, sym, ap,
  ◌∙◌, arith, sort_by, insert_by, is_nil, eq_sound, Bool-cases, inl, inr,
}
use clausa_lens.Contracts.Event.{ExecutionEvent}
use clausa_lens.Graph.Build.{text_less}
use clausa_lens.Checkout.Oracle.{
  no_evidence, observe_all, result_of, events_for_operation, operation_ids, first_match,
  first_or_empty, select_operation, evaluate_with, result_matched, quick_matches, evaluate,
}
use clausa_lens.Checkout.Evidence.{shows_duplicate, evidence_matches-observe_all}

-- Sorting loses and makes no element.
any-insert_by :
    {A : Type 0} (less : A → A → Bool) (p : A → Bool) (x : A) (ys : List A)
    → any p (insert_by less x ys) ≡ (p x || any p ys)
unfolding insert_by
any-insert_by less p x [] = refl
any-insert_by less p x (y ∷ ys) = ground (arith, any-insert_by less p x ys)

any-sort_by :
    {A : Type 0} (less : A → A → Bool) (p : A → Bool) (xs : List A)
    → any p (sort_by less xs) ≡ any p xs
unfolding sort_by
any-sort_by less p [] = refl
any-sort_by less p (x ∷ xs) =
    any-insert_by less p x (sort_by less xs) ∙ ap (λ b. p x || b) (any-sort_by less p xs)

any_seen :
    (p : String → Bool) (id : String) (seen : List String)
    → any (λ s. id == s) seen ≡ true
    → p id ≡ true
    → any p seen ≡ true
any_seen p id [] h k = ground arith
any_seen p id (s ∷ seen) h k = elim (Bool-cases (id == s)) [
  | inl same ↦ rw (← eq_sound id s same, k)
  | inr other ↦ ground (arith, any_seen p id seen)
]

-- Every operation of the events is found, or was found before.
any-operation_ids :
    (p : String → Bool) (seen : List String) (es : List ExecutionEvent)
    → (any p (operation_ids seen es) || any p seen)
      ≡ (any (λ (e : ExecutionEvent). p e.logical_operation_id) es || any p seen)
unfolding operation_ids
any-operation_ids p seen [] = refl
any-operation_ids p seen (e ∷ es) = ground (
  arith,
  any-operation_ids p seen es,
  any-operation_ids p (e.logical_operation_id ∷ seen) es,
  any_seen p e.logical_operation_id seen,
)

abbrev pub Same : String → List ExecutionEvent → Type 0
Same id es = All (λ (e : ExecutionEvent). (e.logical_operation_id == id) ≡ true) es

events_for_operation-Same :
    (id : String) (es : List ExecutionEvent) → Same id (events_for_operation es id)
events_for_operation-Same id [] = tt
events_for_operation-Same id (e ∷ es) = ground (arith, events_for_operation-Same id es)

events_for_operation-all :
    (id : String) (es : List ExecutionEvent) → Same id es → events_for_operation es id ≡ es
events_for_operation-all id [] s = refl
events_for_operation-all id (e ∷ es) (now, later) = rw (now, events_for_operation-all id es later)

operation_ids-Same :
    (id : String) (es : List ExecutionEvent) → Same id es → operation_ids (id ∷ []) es ≡ []
unfolding operation_ids
operation_ids-Same id [] s = refl
operation_ids-Same id (e ∷ es) (now, later) = rw (now, operation_ids-Same id es later)

result_of-matched :
    (id : String) (es : List ExecutionEvent)
    → (result_of id es (observe_all es no_evidence)).matched ≡ shows_duplicate es
unfolding result_of
result_of-matched id es = ground (arith, evidence_matches-observe_all es)

-- The answer is about the operation that was selected.
evaluate_with-select_operation :
    (q : List ExecutionEvent → Bool) (e : ExecutionEvent) (es : List ExecutionEvent)
    → result_matched (evaluate_with q (e ∷ es))
      ≡ shows_duplicate (events_for_operation (e ∷ es) (select_operation q (e ∷ es)))
unfolding evaluate_with
evaluate_with-select_operation q e es =
    let id = select_operation q (e ∷ es) in result_of-matched id (events_for_operation (e ∷ es) id)

select_operation-Same :
    (q : List ExecutionEvent → Bool) (e : ExecutionEvent) (es : List ExecutionEvent)
    → Same e.logical_operation_id es
    → select_operation q (e ∷ es) ≡ e.logical_operation_id
unfolding select_operation operation_ids
select_operation-Same q e es s = rw (operation_ids-Same e.logical_operation_id es s)

-- Events that are all of one operation are judged as they are, whichever test the selection would use.
evaluate_with-Same :
    (q : List ExecutionEvent → Bool) (id : String) (es : List ExecutionEvent)
    → Same id es
    → result_matched (evaluate_with q es) ≡ shows_duplicate es
unfolding evaluate_with shows_duplicate
evaluate_with-Same q id [] s = refl
evaluate_with-Same q id (e ∷ es) (now, later) =
    let same = eq_sound e.logical_operation_id id now in
    let alone : Same e.logical_operation_id es = rw same later in
    evaluate_with-select_operation q e es
    ∙ ap (λ k. shows_duplicate (events_for_operation (e ∷ es) k))
        (select_operation-Same q e es alone ∙ same)
    ∙ ap shows_duplicate (events_for_operation-all id (e ∷ es) (now, later))

-- `quickMatches` on the events of an operation.
quick_matches-operation :
    (es : List ExecutionEvent) (id : String)
    → quick_matches (events_for_operation es id) ≡ shows_duplicate (events_for_operation es id)
unfolding quick_matches
quick_matches-operation es id =
    evaluate_with-Same (λ _. false) id (events_for_operation es id)
      (events_for_operation-Same id es)

-- The test of the operation that the loop selects: one matches, or the default does.
first_match-any :
    (events : List ExecutionEvent) (ids : List String) (default : String)
    → shows_duplicate (events_for_operation events (first_match quick_matches events ids default))
      ≡ (any (λ id. shows_duplicate (events_for_operation events id)) ids
          || shows_duplicate (events_for_operation events default))
unfolding first_match
first_match-any events [] default = refl
first_match-any events (id ∷ ids) default =
    ground (arith, first_match-any events ids default, quick_matches-operation events id)

first_or_empty-any :
    (p : String → Bool) (ids : List String)
    → is_nil ids ≡ false
    → (any p ids || p (first_or_empty ids)) ≡ any p ids
first_or_empty-any p [] h = cc
first_or_empty-any p (id ∷ ids) h = ground arith

insert_by-is_nil : (id : String) (ids : List String) → is_nil (insert_by text_less id ids) ≡ false
unfolding insert_by
insert_by-is_nil id [] = refl
insert_by-is_nil id (j ∷ ids) = ground arith

sort_by-is_nil : (id : String) (ids : List String) → is_nil (sort_by text_less (id ∷ ids)) ≡ false
unfolding sort_by
sort_by-is_nil id ids = insert_by-is_nil id (sort_by text_less ids)

-- The operations of the events, one of which shows the failure or not.
any_operation : List ExecutionEvent → List String → Bool
any_operation events ids = any (λ id. shows_duplicate (events_for_operation events id)) ids

selected :
    (events : List ExecutionEvent) (id : String) (ids : List String)
    → operation_ids [] events ≡ id ∷ ids
    → shows_duplicate (events_for_operation events (select_operation quick_matches events))
      ≡ any_operation events (id ∷ ids)
unfolding select_operation any_operation
selected events id [] h = rw h (ground arith)
selected events id (j ∷ ids) h =
    let sorted = sort_by text_less (id ∷ j ∷ ids) in
    let shows : String → Bool = λ k. shows_duplicate (events_for_operation events k) in
    rw h (
      first_match-any events sorted (first_or_empty sorted)
      ∙ first_or_empty-any shows sorted (sort_by-is_nil id (j ∷ ids))
      ∙ any-sort_by text_less shows (id ∷ j ∷ ids))

first_operation :
    (e : ExecutionEvent) (es : List ExecutionEvent)
    → operation_ids [] (e ∷ es)
      ≡ e.logical_operation_id ∷ operation_ids (e.logical_operation_id ∷ []) es
unfolding operation_ids
first_operation e es = refl

no_more : {a b : Bool} → (a || false) ≡ (b || false) → a ≡ b
no_more {a} {b} h = ground arith

-- `EvaluateOutcome` reports a match exactly when some logical operation of the events shows the
-- failure: a timeout, a retry, an attempt of 2 or later and at least two committed effects, all among
-- the events of that one operation.
pub evaluate-shows_duplicate :
    (events : List ExecutionEvent)
    → result_matched (evaluate events)
      ≡ any
          (λ (e : ExecutionEvent).
            shows_duplicate (events_for_operation events e.logical_operation_id))
          events
unfolding evaluate evaluate_with any_operation
evaluate-shows_duplicate [] = refl
evaluate-shows_duplicate (e ∷ es) =
    let shows : String → Bool = λ k. shows_duplicate (events_for_operation (e ∷ es) k) in
    let found = any-operation_ids shows [] (e ∷ es) in
    evaluate_with-select_operation quick_matches e es
    ∙ selected (e ∷ es) e.logical_operation_id _ (first_operation e es)
    ∙ ap (any shows) (sym (first_operation e es))
    ∙ no_more found
