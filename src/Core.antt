-- ===== src/Core.antt =====
-- internal/core: the repository of events, incidents, graphs, capsules, runs and diffs, in memory.
pub mod Store
pub mod Events
pub mod Incidents
pub mod Runs
pub mod Lease
pub mod Steps
pub mod Invariant
pub mod Ready
pub mod Reach
pub mod Baselines
pub mod Claims
pub mod Immutable
pub mod References
pub mod Ordered
pub mod Query
pub mod Pages
pub mod Recovery
pub mod Repository
pub mod Promises
pub mod Refinement
