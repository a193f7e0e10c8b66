-- ===== src/Capsule.antt =====
-- internal/capsule: how a capsule is compiled from an incident.
pub mod Compile
pub mod Compiled
pub mod Replayable
