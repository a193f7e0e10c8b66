-- ===== src/Contracts.antt =====
-- internal/contracts/contracts.go: the frozen contract types and their validators.
pub mod EventEnums
pub mod IncidentEnums
pub mod RunEnums
pub mod Time
pub mod Values
pub mod Text
pub mod Event
pub mod Incident
pub mod Graph
pub mod Capsule
pub mod Isolation
pub mod Run
pub mod Diff
pub mod CapsuleCheck
pub mod RunCheck
pub mod DiffCheck
pub mod Reset
pub mod RunFacts
pub mod Lifecycle
pub mod CapsuleFacts
pub mod Pack
