-- ===== src/Examples/Capture.antt =====
-- Recorders at concrete events.
use Prim.Native.Nat.{◌^◌}
use clausa_lens.Prelude.{
  none, some, List, [], ◌∷◌, ◌+◌, ◌<◌, pos, ◌≡◌, refl, arith, lookup, insert, decimal_text,
}
use clausa_lens.Contracts.EventEnums.{EventType, EventStatus, OperationKind}
use clausa_lens.Contracts.Event.{ExecutionEvent, validate_event}
use clausa_lens.Contracts.Time.{valid_utc_time}
use clausa_lens.Checkout.Oracle.{ids_of}
use clausa_lens.Contracts.Graph.{Distinct}
use clausa_lens.Capture.Ids.{IdGenerator, new_ids, reset_ids, next_event_id}
use clausa_lens.Capture.Recorder.{
  Recorder, RecordInput, Recorded, record_event, recorded_event, emit_in_memory,
}
use clausa_lens.Capture.Unique.{Captured, created, recorded, Valid, Captured-Distinct}
use clausa_lens.Examples.Data.{noon}

abbrev payment : Recorder
payment = record { component = record { name = "payment"; replica = "payment-1" }; seq = [] }

abbrev started : RecordInput
started = record {
  execution_id = "exec-1";
  trace_id = "trace-1";
  parent_event_id = "";
  replay_run_id = "";
  operation = record { name = "authorize"; kind = OperationKind.dependency };
  event_type = EventType.start;
  attempt = pos 1;
  logical_operation_id = "checkout-1";
  duration_ms = none;
  status = EventStatus.running;
  attributes = none;
}

abbrev start : IdGenerator
start = new_ids (pos 8271)

abbrev once : Recorded (List ExecutionEvent)
once = record_event (some emit_in_memory) noon started payment start []

abbrev twice : Recorded (List ExecutionEvent)
twice = record_event (some emit_in_memory) noon started once.recorder once.ids once.sink

emits : ids_of twice.sink ≡ "evt-payment-1" ∷ "evt-payment-2" ∷ []
unfolding record_event validate_event recorded_event next_event_id decimal_text new_ids lookup
    valid_utc_time insert emit_in_memory
emits = refl

-- After a reset the first id comes again.
repeats : (next_event_id "payment" (reset_ids twice.ids)).1 ≡ "evt-payment-1"
unfolding record_event next_event_id decimal_text reset_ids
repeats = refl

room : (start.event_seq + 1 < 2 ^ 64) × (once.ids.event_seq + 1 < 2 ^ 64)
unfolding new_ids record_event validate_event recorded_event next_event_id decimal_text lookup
    valid_utc_time
room = (omega arith, omega arith)

abbrev history : Captured twice.ids twice.sink
history =
    recorded (recorded (created (pos 8271)) noon started payment room.0) noon started once.recorder
      room.1

Captured-Distinct_example : Distinct (ids_of twice.sink) × Valid twice.sink
Captured-Distinct_example = Captured-Distinct history
