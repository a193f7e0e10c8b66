-- ===== src/Checkout/Align.antt =====
-- internal/systempack/checkout/compare.go: `Align`, the matching of two runs' events by their keys.
use clausa_lens.Prelude.{
  ℕ, suc, String, Bool, true, ◌&&◌, Option, none, some, List, [], ◌∷◌, select, get_elem?, ◌==◌,
  ◌!=◌, string_eq, int_eq, ℤ, ◌≡◌, ◌↔◌, arith, Eq, if◌then◌else◌,
}
use clausa_lens.Contracts.EventEnums.{
  EventType, event_type_eq, event_type_beq_iff, event_status_eq, event_status_text,
}
use clausa_lens.Contracts.Values.{str_val}
use clausa_lens.Contracts.Event.{ExecutionEvent}
use clausa_lens.Contracts.Diff.{EventAlignment, EventChange}
use clausa_lens.Contracts.Graph.{seen_text}

pub record AlignKey : Type 0 where
  pub component : String
  pub operation : String
  pub event_type : EventType
  pub logical_op : String
  pub attempt : ℤ

abbrev pub align_key_beq : AlignKey → AlignKey → Bool
align_key_beq a b =
    a.component == b.component
    && a.operation == b.operation
    && a.event_type == b.event_type
    && a.logical_op == b.logical_op
    && a.attempt == b.attempt

pub align_key_beq_iff : (a b : AlignKey) → (align_key_beq a b ≡ true) ↔ (a ≡ b)
align_key_beq_iff a b = ground (
  arith,
  string_eq.beq_iff a.component b.component,
  string_eq.beq_iff a.operation b.operation,
  event_type_beq_iff a.event_type b.event_type,
  string_eq.beq_iff a.logical_op b.logical_op,
)

instance abbrev pub align_key_eq : Eq AlignKey
align_key_eq = record { beq = align_key_beq; beq_iff = align_key_beq_iff }

unfoldable pub key_of : ExecutionEvent → AlignKey
key_of e = record {
  component = e.component.name;
  operation = e.operation.name;
  event_type = e.event_type;
  logical_op = e.logical_operation_id;
  attempt = e.attempt;
}

-- `comparisonByKey[k]`: the comparison's events of a key, in their order.
unfoldable pub events_of_key : AlignKey → List ExecutionEvent → List ExecutionEvent
events_of_key k events = select (λ e. key_of e == k) events

-- `consumed[k]`: how many baseline events of the key were matched before; `keys` are theirs.
unfoldable pub consumed : AlignKey → List AlignKey → ℕ
consumed k [] = 0
consumed k (j ∷ keys) = let rest = consumed k keys in if j == k then suc rest else rest

pub record Alignment : Type 0 where
  pub matched : List EventAlignment
  pub removed : List String
  pub changed : List EventChange
  pub used : List String

status_change : ExecutionEvent → ExecutionEvent → List EventChange → List EventChange
status_change b c rest =
    if b.status != c.status
    then record {
      baseline_event_id = b.event_id;
      comparison_event_id = c.event_id;
      field_name = "status";
      baseline_value = str_val (event_status_text b.status);
      comparison_value = str_val (event_status_text c.status);
    }
      ∷ rest
    else rest

-- The body of the loop over the baseline, with the candidate that is left for its key, if any.
unfoldable pub align_event : ExecutionEvent → Option ExecutionEvent → Alignment → Alignment
unfolding status_change
align_event b none rest = record rest { removed = b.event_id ∷ rest.removed }
align_event b (some c) rest = record {
  matched =
      record { baseline_event_id = b.event_id; comparison_event_id = c.event_id } ∷ rest.matched;
  removed = rest.removed;
  changed = status_change b c rest.changed;
  used = c.event_id ∷ rest.used;
}

-- The key joins `consumed` only where an event was matched.
abbrev pub consume : AlignKey → Option ExecutionEvent → List AlignKey → List AlignKey
consume k none keys = keys
consume k (some c) keys = k ∷ keys

unfoldable pub align_baseline :
    List ExecutionEvent → List AlignKey → List ExecutionEvent → Alignment
align_baseline comparison keys [] = record { matched = []; removed = []; changed = []; used = [] }
align_baseline comparison keys (b ∷ bs) =
    let k = key_of b in
    let candidate = get_elem? (events_of_key k comparison) (consumed k keys) in
    align_event b candidate (align_baseline comparison (consume k candidate keys) bs)

unfoldable pub unused : List String → List ExecutionEvent → List String
unused used [] = []
unused used (c ∷ cs) =
    let rest = unused used cs in if seen_text c.event_id used then rest else c.event_id ∷ rest

pub record EventSets : Type 0 where
  pub matched : List EventAlignment
  pub added : List String
  pub removed : List String
  pub changed : List EventChange

unfoldable pub align : List ExecutionEvent → List ExecutionEvent → EventSets
align baseline comparison =
    let a = align_baseline comparison [] baseline in
    record {
      matched = a.matched;
      added = unused a.used comparison;
      removed = a.removed;
      changed = a.changed;
    }
