-- ===== src/Capture/Recorder.antt =====
-- internal/capture/recorder.go and sink.go: recorders, and the sinks that they emit to. `now` is the
-- text that `clock().UTC().Format(time.RFC3339Nano)` gives. A sink is its `Emit` on a state, so that
-- the one that posts events over HTTP is a parameter.
use clausa_lens.Prelude.{
  ℕ, suc, String, Option, none, some, List, [], ◌∷◌, ◌++◌, ℤ, pos, ◌<ℤ◌, Dict, lookup, insert,
  Result, ok, err, ◌+++◌, if◌then◌else◌,
}
use clausa_lens.Contracts.EventEnums.{EventType, EventStatus}
use clausa_lens.Contracts.Values.{Value}
use clausa_lens.Contracts.Text.{contract_version}
use clausa_lens.Contracts.Event.{ExecutionEvent, ComponentRef, OperationRef, validate_event}
use clausa_lens.Capture.Ids.{IdGenerator, next_event_id}

pub record RecordInput : Type 0 where
  pub execution_id : String
  pub trace_id : String
  pub parent_event_id : String
  pub replay_run_id : String
  pub operation : OperationRef
  pub event_type : EventType
  pub attempt : ℤ
  pub logical_operation_id : String
  pub duration_ms : Option ℤ
  pub status : EventStatus
  pub attributes : Option (Dict Value)

-- `IDs` and `Sink` are shared, and so are states of their own.
pub record Recorder : Type 0 where
  pub component : ComponentRef
  pub seq : Dict ℕ

unfoldable pub new_recorder : ComponentRef → Recorder
new_recorder component = record { component = component; seq = [] }

abbrev or_zero : Option ℕ → ℕ
or_zero none = 0
or_zero (some n) = n

unfoldable pub sequence_key : String → Recorder → String
sequence_key execution_id r = execution_id +++ "|" +++ r.component.replica

unfoldable pub sequence_of : String → Recorder → ℕ
unfolding sequence_key
sequence_of execution_id r = or_zero (lookup (sequence_key execution_id r) r.seq)

unfoldable pub next_sequence : String → Recorder → Recorder × ℕ
unfolding sequence_of sequence_key
next_sequence execution_id r =
    let n = sequence_of execution_id r in
    (record r { seq = insert (sequence_key execution_id r) (suc n) r.seq }, n)

abbrev or_empty : Option (Dict Value) → Option (Dict Value)
or_empty none = some []
or_empty (some m) = some m

unfoldable pub recorded_event : String → ComponentRef → String → ℕ → RecordInput → ExecutionEvent
recorded_event now component event_id sequence x = record {
  schema_version = contract_version;
  event_id = event_id;
  execution_id = x.execution_id;
  trace_id = x.trace_id;
  parent_event_id = x.parent_event_id;
  replay_run_id = x.replay_run_id;
  component = component;
  operation = x.operation;
  event_type = x.event_type;
  attempt = x.attempt;
  logical_operation_id = x.logical_operation_id;
  occurred_at = now;
  sequence = pos sequence;
  duration_ms = x.duration_ms;
  status = x.status;
  attributes = or_empty x.attributes;
}

-- `Emit`: the sink's next state, and its error.
abbrev pub Sink : Type 0 → Type 0
Sink S = ExecutionEvent → S → S × Result String (Unit {0})

-- `InMemorySink`
unfoldable pub emit_in_memory : Sink (List ExecutionEvent)
emit_in_memory e events = (events ++ e ∷ [], ok tt)

abbrev first_error : Result String (Unit {0}) → Result String (Unit {0}) → Result String (Unit {0})
first_error (ok tt) later = later
first_error (err e) later = err e

unfoldable pub reset_sink : List ExecutionEvent → List ExecutionEvent
reset_sink events = []

-- `MultiSink`: every sink is attempted, and the first error is returned.
unfoldable pub emit_multi : {S : Type 0} → List (Sink S) → Sink S
emit_multi [] e s = (s, ok tt)
emit_multi (sink ∷ sinks) e s =
    let (t, first) = sink e s in
    let (u, later) = emit_multi sinks e t in (u, first_error first later)

-- What `Record` leaves, and what it returns.
pub record Recorded (S : Type 0) : Type 0 where
  pub recorder : Recorder
  pub ids : IdGenerator
  pub sink : S
  pub result : Result String ExecutionEvent

-- The emission of a valid event; a nil sink is `none`.
unfoldable pub emit_to :
    {S : Type 0} → Option (Sink S) → ExecutionEvent → S → S × Result String (Unit {0})
emit_to none e s = (s, ok tt)
emit_to (some emit) e s = emit e s

abbrev emitted : Result String (Unit {0}) → ExecutionEvent → Result String ExecutionEvent
emitted (ok tt) e = ok e
emitted (err m) e = err ("capture: emit event: " +++ m)

-- `Record`, from the validation of the event on.
abbrev finish_record :
    {S : Type 0}
    → Option (Sink S)
    → Recorder
    → IdGenerator
    → S
    → ExecutionEvent
    → Result String (Unit {0})
    → Recorded S
finish_record sink r ids s e (err m) = record {
  recorder = r;
  ids = ids;
  sink = s;
  result = err ("capture: invalid event: " +++ m);
}
finish_record sink r ids s e (ok tt) =
    let (t, answer) = emit_to sink e s in
    record { recorder = r; ids = ids; sink = t; result = emitted answer e }

-- The id and the sequence number are taken before the event is validated, and are not given back.
unfoldable pub record_event :
    {S : Type 0} → Option (Sink S) → String → RecordInput → Recorder → IdGenerator → S → Recorded S
unfolding next_sequence emit_to
record_event sink now x r ids s =
    let (ids', id) = next_event_id r.component.name ids in
    let (r', n) = next_sequence x.execution_id r in
    let e = recorded_event now r.component id n x in
    if x.attempt <ℤ pos 1
    then record { recorder = r; ids = ids; sink = s; result = err "capture: attempt must be >= 1" }
    else finish_record sink r' ids' s e (validate_event e)
