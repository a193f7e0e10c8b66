-- ===== src/Packs/Align.antt =====
-- internal/packregistry/devpack.go: `alignEvents`. The loop over the index of the baseline runs in the
-- order in which the keys came, where Go leaves it open; the sorts that follow fix it but for ties.
use clausa_lens.Prelude.{
  ℕ, zero, suc, String, Bool, not, Option, none, some, List, [], ◌∷◌, ◌++◌, length, ◌!=◌, string_eq,
  int_eq, nat_eq, option_eq, ℤ, Dict, insert, lookup, sort_by, ◌+++◌, if◌then◌else◌,
}
use clausa_lens.Contracts.EventEnums.{EventType, event_type_eq, event_status_eq, event_status_text}
use clausa_lens.Contracts.Values.{
  Value, null, str_val, int_val, obj, Fields, field, end, deep_equal,
}
use clausa_lens.Contracts.Event.{ExecutionEvent}
use clausa_lens.Contracts.Diff.{EventAlignment, EventChange}
use clausa_lens.Graph.Build.{text_less}
use clausa_lens.Checkout.Align.{EventSets}
use clausa_lens.Checkout.Fixtures.{int_text}

abbrev nul : String
nul = "\0"

abbrev event_type_text : EventType → String
event_type_text EventType.start = "START"
event_type_text EventType.complete = "COMPLETE"
event_type_text EventType.error = "ERROR"
event_type_text EventType.timeout = "TIMEOUT"
event_type_text EventType.retry = "RETRY"
event_type_text EventType.effect = "EFFECT"
event_type_text EventType.state_observation = "STATE_OBSERVATION"
event_type_text (EventType.other s) = s

unfoldable pub semantic_key : ExecutionEvent → String
semantic_key e =
    e.component.name
    +++ nul
    +++ e.operation.name
    +++ nul
    +++ event_type_text e.event_type
    +++ nul
    +++ e.logical_operation_id
    +++ nul
    +++ int_text e.attempt

abbrev pub ids_or_none : Option (List String) → List String
ids_or_none none = []
ids_or_none (some ids) = ids

unfoldable pub index_from : Dict (List String) → List ExecutionEvent → Dict (List String)
index_from index [] = index
index_from index (e ∷ es) =
    let key = semantic_key e in
    index_from (insert key (ids_or_none (lookup key index) ++ e.event_id ∷ []) index) es

unfoldable pub index_by_key : List ExecutionEvent → Dict (List String)
unfolding index_from
index_by_key events = index_from [] events

abbrev fields_of : Dict Value → Fields
fields_of [] = end
fields_of ((k, v) ∷ m) = field k v (fields_of m)

-- A nil map, and a nil pointer, is `null`.
abbrev attributes_value : Option (Dict Value) → Value
attributes_value none = null
attributes_value (some m) = obj (fields_of m)

abbrev duration_value : Option ℤ → Value
duration_value none = null
duration_value (some ms) = int_val ms

abbrev changed_field : ExecutionEvent → ExecutionEvent → String → Value → Value → EventChange
changed_field base comp name before after = record {
  baseline_event_id = base.event_id;
  comparison_event_id = comp.event_id;
  field_name = name;
  baseline_value = before;
  comparison_value = after;
}

unfoldable pub first_meaningful_change : ExecutionEvent → ExecutionEvent → Option EventChange
first_meaningful_change base comp =
    let before = attributes_value base.attributes in
    let after = attributes_value comp.attributes in
    if base.event_type != comp.event_type
    then some (
        changed_field base comp "event_type" (str_val (event_type_text base.event_type))
          (str_val (event_type_text comp.event_type)))
    else if base.status != comp.status
    then some (
        changed_field base comp "status" (str_val (event_status_text base.status))
          (str_val (event_status_text comp.status)))
    else if base.duration_ms != comp.duration_ms
    then some (
        changed_field base comp "duration_ms" (duration_value base.duration_ms)
          (duration_value comp.duration_ms))
    else if not (deep_equal before after)
    then some (changed_field base comp "attributes" before after)
    else none

abbrev pub drop : ℕ → List String → List String
drop zero xs = xs
drop (suc n) [] = []
drop (suc n) (x ∷ xs) = drop n xs

abbrev pub pair_ids : List String → List String → List EventAlignment
pair_ids (b ∷ bs) (c ∷ cs) =
    record { baseline_event_id = b; comparison_event_id = c } ∷ pair_ids bs cs
pair_ids _ _ = []

-- What the loop over the baseline's keys collects.
pub record Aligned : Type 0 where
  pub matched : List EventAlignment
  pub added : List String
  pub removed : List String

unfoldable pub align_keys : Dict (List String) → Dict (List String) → Aligned
align_keys [] comp_index = record { matched = []; added = []; removed = [] }
align_keys ((key, base_ids) ∷ base_index) comp_index =
    let rest = align_keys base_index comp_index in
    let comp_ids = ids_or_none (lookup key comp_index) in
    record {
      matched = pair_ids base_ids comp_ids ++ rest.matched;
      added = drop (length base_ids) comp_ids ++ rest.added;
      removed = drop (length comp_ids) base_ids ++ rest.removed;
    }

abbrev pub by_event_id : Dict ExecutionEvent → List ExecutionEvent → Dict ExecutionEvent
by_event_id index [] = index
by_event_id index (e ∷ es) = by_event_id (insert e.event_id e index) es

-- A missing id reads as the zero event, which no pair of the alignment has.
abbrev change_of : Option ExecutionEvent → Option ExecutionEvent → Option EventChange
change_of (some b) (some c) = first_meaningful_change b c
change_of _ _ = none

abbrev and_change : Option EventChange → List EventChange → List EventChange
and_change none rest = rest
and_change (some c) rest = c ∷ rest

unfoldable pub changes_of :
    Dict ExecutionEvent → Dict ExecutionEvent → List EventAlignment → List EventChange
unfolding first_meaningful_change
changes_of base comp [] = []
changes_of base comp (p ∷ ps) =
    let rest = changes_of base comp ps in
    and_change (change_of (lookup p.baseline_event_id base) (lookup p.comparison_event_id comp))
      rest

abbrev pub pair_less : EventAlignment → EventAlignment → Bool
pair_less a b = text_less a.baseline_event_id b.baseline_event_id

abbrev pub change_less : EventChange → EventChange → Bool
change_less a b =
    if a.baseline_event_id != b.baseline_event_id
    then text_less a.baseline_event_id b.baseline_event_id
    else text_less a.field_name b.field_name

unfoldable pub align_events : List ExecutionEvent → List ExecutionEvent → EventSets
align_events baseline comparison =
    let a = align_keys (index_by_key baseline) (index_by_key comparison) in
    let changes = changes_of (by_event_id [] baseline) (by_event_id [] comparison) a.matched in
    record {
      matched = sort_by pair_less a.matched;
      added = sort_by text_less a.added;
      removed = sort_by text_less a.removed;
      changed = sort_by change_less changes;
    }
