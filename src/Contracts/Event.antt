-- ===== src/Contracts/Event.antt =====
-- internal/contracts/contracts.go: `ExecutionEvent` and its validator.
-- The required fields are read in the order in which the source writes its map.
use clausa_lens.Prelude.{
  String, Bool, false, ◌||◌, not, Option, none, some, List, [], ◌∷◌, ◌==◌, ◌!=◌, string_eq, ℤ, pos,
  ◌<ℤ◌, Check, err, reject, ◌>>◌, check_all, Dict, ◌+++◌, if◌then◌else◌,
}
use clausa_lens.Contracts.EventEnums.{
  OperationKind, EventType, EventStatus, valid_operation_kind, valid_event_type, valid_event_status,
}
use clausa_lens.Contracts.Time.{valid_utc_time}
use clausa_lens.Contracts.Values.{Value, nonnegative_integer, positive_integer, is_string, is_bool}
use clausa_lens.Contracts.Text.{contract_version}

pub record ComponentRef : Type 0 where
  pub name : String
  pub replica : String

pub record OperationRef : Type 0 where
  pub name : String
  pub kind : OperationKind

pub record ExecutionEvent : Type 0 where
  pub schema_version : String
  pub event_id : String
  pub execution_id : String
  pub trace_id : String
  pub parent_event_id : String
  pub replay_run_id : String
  pub component : ComponentRef
  pub operation : OperationRef
  pub event_type : EventType
  pub attempt : ℤ
  pub logical_operation_id : String
  pub occurred_at : String
  pub sequence : ℤ
  pub duration_ms : Option ℤ
  pub status : EventStatus
  -- A nil map is `none`.
  pub attributes : Option (Dict Value)

required : String × String → Check
required (name, value) = reject (value == "") (name +++ " is required")

required_fields : ExecutionEvent → List (String × String)
required_fields e =
    ("schema_version", e.schema_version)
    ∷ ("event_id", e.event_id)
    ∷ ("execution_id", e.execution_id)
    ∷ ("trace_id", e.trace_id)
    ∷ ("component.name", e.component.name)
    ∷ ("component.instance", e.component.replica)
    ∷ ("operation.name", e.operation.name)
    ∷ ("logical_operation_id", e.logical_operation_id)
    ∷ ("occurred_at", e.occurred_at)
    ∷ []

negative_duration : Option ℤ → Bool
negative_duration none = false
negative_duration (some d) = d <ℤ pos 0

-- The `switch key` over one attribute.
check_attribute : String × Value → Check
check_attribute (key, value) =
    if key == "configured_latency_ms"
    then reject (not (nonnegative_integer value))
        ("attributes." +++ key +++ " must be a non-negative integer")
    else if key == "checkout_timeout_ms"
    then reject (not (positive_integer value))
        ("attributes." +++ key +++ " must be a positive integer")
    else if key == "effect_id" || key == "dependency_name"
    then reject (not (is_string value)) ("attributes." +++ key +++ " must be a string")
    else if key == "effect_committed"
    then reject (not (is_bool value)) ("attributes." +++ key +++ " must be a boolean")
    else err ("attribute " +++ key +++ " is not allowed")

check_attributes : Option (Dict Value) → Check
unfolding check_attribute
check_attributes none = err "attributes must be an object"
check_attributes (some attributes) = check_all check_attribute attributes

unfoldable pub validate_event : ExecutionEvent → Check
unfolding required required_fields negative_duration check_attributes
validate_event e = do
  check_all required (required_fields e)
  reject (e.schema_version != contract_version) "schema_version must be 1.0"
  reject
      (not (valid_operation_kind e.operation.kind)
        || not (valid_event_type e.event_type)
        || not (valid_event_status e.status))
      "invalid execution event enum"
  reject (e.attempt <ℤ pos 1) "attempt must be at least 1"
  reject (e.sequence <ℤ pos 0) "sequence must be non-negative"
  reject (negative_duration e.duration_ms) "duration_ms must be non-negative"
  reject (not (valid_utc_time e.occurred_at)) "occurred_at must be RFC3339 UTC"
  check_attributes e.attributes
