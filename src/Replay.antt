-- ===== src/Replay.antt =====
-- internal/replay and the endings of cmd/replay-worker: the life of a replay run.
pub mod Isolation
pub mod Targets
pub mod Lifecycle
pub mod Execute
pub mod Endings
pub mod Safety
pub mod Recovery
pub mod Outcome
pub mod Stored
pub mod Worker
pub mod Runner
pub mod FixtureIndex
pub mod Loads
pub mod Calls
pub mod Process
pub mod Driven
pub mod Returned
pub mod Creation
