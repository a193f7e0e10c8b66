-- ===== src/Checkout/Oracle.antt =====
-- internal/systempack/checkout/oracle.go: the failure oracle over captured or replayed evidence.
-- The source's `evaluate` calls itself through `selectLogicalOperationID` on the events of one
-- operation, where it makes no further call. Here `evaluate_with` takes the inner call as an
-- argument, and `evaluate` closes it at depth two.
use clausa_lens.Prelude.{
  String, Bool, true, false, ◌&&◌, not, Option, none, some, List, [], ◌∷◌, ◌++◌, length, any,
  select, ◌==◌, ◌!=◌, string_eq, int_eq, ℤ, pos, ◌<ℤ◌, Result, ok, err, Dict, lookup, sort_by, ltb,
  ◌+++◌, decimal_text, if◌then◌else◌,
}
use clausa_lens.Contracts.EventEnums.{EventType, OperationKind, event_type_eq, operation_kind_eq}
use clausa_lens.Contracts.Values.{Value, bool_val}
use clausa_lens.Contracts.Event.{ExecutionEvent}
use clausa_lens.Contracts.Incident.{FailureOracleRef}
use clausa_lens.Contracts.Capsule.{EffectSummary}
use clausa_lens.Contracts.Run.{OracleResult}
use clausa_lens.Graph.Build.{text_less}

abbrev pub oracle_ref : FailureOracleRef
oracle_ref = record { id = "duplicate_ledger_effect"; version = "1.0.0" }

-- The local variables of the loop.
pub record Evidence : Type 0 where
  pub has_timeout : Bool
  pub has_retry : Bool
  pub max_attempt : ℤ
  pub timeout_event_id : String
  pub retry_event_id : String
  pub attempts_seen : List ℤ
  pub committed_effects : List ExecutionEvent

abbrev pub no_evidence : Evidence
no_evidence = record {
  has_timeout = false;
  has_retry = false;
  max_attempt = pos 0;
  timeout_event_id = "";
  retry_event_id = "";
  attempts_seen = [];
  committed_effects = [];
}

abbrev is_true : Option Value → Bool
is_true (some (bool_val b)) = b
is_true _ = false

abbrev attribute : String → Option (Dict Value) → Option Value
attribute key none = none
attribute key (some m) = lookup key m

-- `committed, ok := e.Attributes["effect_committed"].(bool); ok && committed`
unfoldable pub is_committed : ExecutionEvent → Bool
is_committed e = is_true (attribute "effect_committed" e.attributes)

abbrev first_id : String → String → String
first_id seen id = if seen == "" then id else seen

abbrev add_attempt : ℤ → List ℤ → List ℤ
add_attempt a seen = if any (λ b. a == b) seen then seen else a ∷ seen

-- The `switch e.EventType` of the loop.
unfoldable pub observe_type : EventType → ExecutionEvent → Evidence → Evidence
unfolding is_committed
observe_type EventType.timeout e v = record v {
  has_timeout = true;
  timeout_event_id = first_id v.timeout_event_id e.event_id;
}
observe_type EventType.retry e v = record v {
  has_retry = true;
  retry_event_id = first_id v.retry_event_id e.event_id;
}
observe_type EventType.start e v =
    if e.operation.kind == OperationKind.dependency
    then record v { attempts_seen = add_attempt e.attempt v.attempts_seen }
    else v
observe_type EventType.effect e v =
    if is_committed e then record v { committed_effects = v.committed_effects ++ e ∷ [] } else v
observe_type _ e v = v

unfoldable pub observe : ExecutionEvent → Evidence → Evidence
unfolding observe_type
observe e v =
    observe_type e.event_type e
      (record v { max_attempt = if v.max_attempt <ℤ e.attempt then e.attempt else v.max_attempt })

unfoldable pub observe_all : List ExecutionEvent → Evidence → Evidence
observe_all [] v = v
observe_all (e ∷ es) v = observe_all es (observe e v)

unfoldable pub evidence_matches : Evidence → Bool
evidence_matches v =
    v.has_timeout
    && v.has_retry
    && not (v.max_attempt <ℤ pos 2)
    && ltb 1 (length v.committed_effects)

unfoldable pub event_before : ExecutionEvent → ExecutionEvent → Bool
event_before a b =
    if a.sequence != b.sequence then a.sequence <ℤ b.sequence else text_less a.event_id b.event_id

unfoldable pub sort_events : List ExecutionEvent → List ExecutionEvent
sort_events events = sort_by event_before events

abbrev pub ids_of : List ExecutionEvent → List String
ids_of [] = []
ids_of (e ∷ es) = e.event_id ∷ ids_of es

abbrev pub events_for_operation : List ExecutionEvent → String → List ExecutionEvent
events_for_operation events id = select (λ e. e.logical_operation_id == id) events

unfoldable pub explain_mismatch : Evidence → String
explain_mismatch v =
    if not v.has_timeout
    then "no checkout timeout event was observed"
    else if not v.has_retry
    then "no retry event was observed"
    else if v.max_attempt <ℤ pos 2
    then "no attempt >= 2 was observed"
    else if ltb (length v.committed_effects) 2
    then "fewer than two committed ledger effects were observed"
    else "oracle evidence incomplete"

unfoldable pub effects_of : Evidence → EffectSummary
effects_of v = record {
  payment_attempt_count = pos (length v.attempts_seen);
  ledger_commit_count = pos (length v.committed_effects);
}

unfoldable pub result_of : String → List ExecutionEvent → Evidence → OracleResult
unfolding evidence_matches sort_events effects_of explain_mismatch
result_of operation group v =
    if evidence_matches v
    then record {
      oracle = oracle_ref;
      matched = true;
      effect_summary = effects_of v;
      required_evidence_event_ids =
          some (v.timeout_event_id ∷ v.retry_event_id ∷ ids_of (sort_events v.committed_effects));
      explanation =
          "One logical checkout ("
          +++ operation
          +++ ") produced "
          +++ decimal_text (length v.committed_effects)
          +++ " committed ledger effects after a timeout-driven retry.";
    }
    else record {
      oracle = oracle_ref;
      matched = false;
      effect_summary = effects_of v;
      required_evidence_event_ids = some (ids_of (sort_events group));
      explanation = operation +++ ": " +++ explain_mismatch v;
    }

-- The distinct operation ids in the order of their first event; `seen` are those already found.
unfoldable pub operation_ids : List String → List ExecutionEvent → List String
operation_ids seen [] = []
operation_ids seen (e ∷ es) =
    let id = e.logical_operation_id in
    let old = operation_ids seen es in
    let new = id ∷ operation_ids (id ∷ seen) es in if any (λ s. id == s) seen then old else new

abbrev pub first_or_empty : List String → String
first_or_empty [] = ""
first_or_empty (id ∷ ids) = id

module _ (quick_matches : List ExecutionEvent → Bool) where
  -- The loop that prefers the first id whose events match.
  unfoldable pub first_match : List ExecutionEvent → List String → String → String
  first_match events [] default = default
  first_match events (id ∷ ids) default =
      let later = first_match events ids default in
      if quick_matches (events_for_operation events id) then id else later

  abbrev pub select_from : List ExecutionEvent → List String → String
  select_from events (id ∷ []) = id
  select_from events ids =
      first_match events (sort_by text_less ids) (first_or_empty (sort_by text_less ids))

  -- Go panics on no events. Both callers rule them out before they call it.
  unfoldable pub select_operation : List ExecutionEvent → String
  select_operation events = select_from events (operation_ids [] events)

  unfoldable pub evaluate_with : List ExecutionEvent → Result String OracleResult
  evaluate_with [] = err "checkout: no evidence to evaluate"
  evaluate_with (e ∷ es) =
      let operation = select_operation (e ∷ es) in
      let group = events_for_operation (e ∷ es) operation in
      ok (result_of operation group (observe_all group no_evidence))

abbrev pub result_matched : Result String OracleResult → Bool
result_matched (ok r) = r.matched
result_matched (err e) = false

-- `quickMatches` on the events of one operation.
unfoldable pub quick_matches : List ExecutionEvent → Bool
quick_matches group = result_matched (evaluate_with (λ _. false) group)

-- `evaluate`, which is `DetectIncident` and `EvaluateOutcome`.
unfoldable pub evaluate : List ExecutionEvent → Result String OracleResult
evaluate events = evaluate_with quick_matches events
