-- ===== src/Api.antt =====
-- cmd/core-api: the handlers of the core API over the store, and the detection of incidents.
pub mod Respond
pub mod Detect
pub mod Incidents
pub mod Runs
pub mod Reads
pub mod Detected
pub mod Compiled
