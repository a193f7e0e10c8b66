-- ===== src/Capture.antt =====
-- internal/capture: identifiers, recorders and sinks of events.
pub mod Ids
pub mod Recorder
pub mod Unique
