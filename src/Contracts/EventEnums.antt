-- ===== src/Contracts/EventEnums.antt =====
-- internal/contracts/contracts.go: the string enumerations of an execution event and of a graph edge.
-- A text outside the list that the contract names is `other`.
use clausa_lens.Prelude.{String, ◌≡◌, Bool, true, false, arith, ◌↔◌, Eq, ◌==◌, string_eq}

-- OperationKind
pub data OperationKind : Type 0 where
  entrypoint internal dependency state_change side_effect control : OperationKind
  other : String → OperationKind

abbrev pub operation_kind_beq : OperationKind → OperationKind → Bool
operation_kind_beq OperationKind.entrypoint OperationKind.entrypoint = true
operation_kind_beq OperationKind.internal OperationKind.internal = true
operation_kind_beq OperationKind.dependency OperationKind.dependency = true
operation_kind_beq OperationKind.state_change OperationKind.state_change = true
operation_kind_beq OperationKind.side_effect OperationKind.side_effect = true
operation_kind_beq OperationKind.control OperationKind.control = true
operation_kind_beq (OperationKind.other a) (OperationKind.other b) = a == b
operation_kind_beq _ _ = false

pub operation_kind_beq_iff : (a b : OperationKind) → (operation_kind_beq a b ≡ true) ↔ (a ≡ b)
operation_kind_beq_iff (OperationKind.other a) (OperationKind.other b) =
    ground (arith, string_eq.beq_iff a b)
operation_kind_beq_iff a b = ground arith

instance abbrev pub operation_kind_eq : Eq OperationKind
operation_kind_eq = record { beq = operation_kind_beq; beq_iff = operation_kind_beq_iff }

abbrev pub valid_operation_kind : OperationKind → Bool
valid_operation_kind (OperationKind.other s) = false
valid_operation_kind _ = true

-- EventType
pub data EventType : Type 0 where
  start complete error timeout retry effect state_observation : EventType
  other : String → EventType

abbrev pub event_type_beq : EventType → EventType → Bool
event_type_beq EventType.start EventType.start = true
event_type_beq EventType.complete EventType.complete = true
event_type_beq EventType.error EventType.error = true
event_type_beq EventType.timeout EventType.timeout = true
event_type_beq EventType.retry EventType.retry = true
event_type_beq EventType.effect EventType.effect = true
event_type_beq EventType.state_observation EventType.state_observation = true
event_type_beq (EventType.other a) (EventType.other b) = a == b
event_type_beq _ _ = false

pub event_type_beq_iff : (a b : EventType) → (event_type_beq a b ≡ true) ↔ (a ≡ b)
event_type_beq_iff (EventType.other a) (EventType.other b) = ground (arith, string_eq.beq_iff a b)
event_type_beq_iff a b = ground arith

instance abbrev pub event_type_eq : Eq EventType
event_type_eq = record { beq = event_type_beq; beq_iff = event_type_beq_iff }

abbrev pub valid_event_type : EventType → Bool
valid_event_type (EventType.other s) = false
valid_event_type _ = true

-- EventStatus
pub data EventStatus : Type 0 where
  running success failed timed_out blocked : EventStatus
  other : String → EventStatus

abbrev pub event_status_beq : EventStatus → EventStatus → Bool
event_status_beq EventStatus.running EventStatus.running = true
event_status_beq EventStatus.success EventStatus.success = true
event_status_beq EventStatus.failed EventStatus.failed = true
event_status_beq EventStatus.timed_out EventStatus.timed_out = true
event_status_beq EventStatus.blocked EventStatus.blocked = true
event_status_beq (EventStatus.other a) (EventStatus.other b) = a == b
event_status_beq _ _ = false

pub event_status_beq_iff : (a b : EventStatus) → (event_status_beq a b ≡ true) ↔ (a ≡ b)
event_status_beq_iff (EventStatus.other a) (EventStatus.other b) =
    ground (arith, string_eq.beq_iff a b)
event_status_beq_iff a b = ground arith

instance abbrev pub event_status_eq : Eq EventStatus
event_status_eq = record { beq = event_status_beq; beq_iff = event_status_beq_iff }

abbrev pub valid_event_status : EventStatus → Bool
valid_event_status (EventStatus.other s) = false
valid_event_status _ = true

abbrev pub event_status_text : EventStatus → String
event_status_text EventStatus.running = "RUNNING"
event_status_text EventStatus.success = "SUCCESS"
event_status_text EventStatus.failed = "FAILED"
event_status_text EventStatus.timed_out = "TIMEOUT"
event_status_text EventStatus.blocked = "BLOCKED"
event_status_text (EventStatus.other s) = s

-- GraphEdgeType
pub data GraphEdgeType : Type 0 where
  parent_child temporal dependency retry state side_effect : GraphEdgeType
  other : String → GraphEdgeType

abbrev pub graph_edge_type_beq : GraphEdgeType → GraphEdgeType → Bool
graph_edge_type_beq GraphEdgeType.parent_child GraphEdgeType.parent_child = true
graph_edge_type_beq GraphEdgeType.temporal GraphEdgeType.temporal = true
graph_edge_type_beq GraphEdgeType.dependency GraphEdgeType.dependency = true
graph_edge_type_beq GraphEdgeType.retry GraphEdgeType.retry = true
graph_edge_type_beq GraphEdgeType.state GraphEdgeType.state = true
graph_edge_type_beq GraphEdgeType.side_effect GraphEdgeType.side_effect = true
graph_edge_type_beq (GraphEdgeType.other a) (GraphEdgeType.other b) = a == b
graph_edge_type_beq _ _ = false

pub graph_edge_type_beq_iff : (a b : GraphEdgeType) → (graph_edge_type_beq a b ≡ true) ↔ (a ≡ b)
graph_edge_type_beq_iff (GraphEdgeType.other a) (GraphEdgeType.other b) =
    ground (arith, string_eq.beq_iff a b)
graph_edge_type_beq_iff a b = ground arith

instance abbrev pub graph_edge_type_eq : Eq GraphEdgeType
graph_edge_type_eq = record { beq = graph_edge_type_beq; beq_iff = graph_edge_type_beq_iff }

abbrev pub valid_graph_edge_type : GraphEdgeType → Bool
valid_graph_edge_type (GraphEdgeType.other s) = false
valid_graph_edge_type _ = true
