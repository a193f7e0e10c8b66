-- ===== src/Differential.antt =====
-- internal/differential: the ReplayDiff of a baseline and a what-if run.
pub mod Divergence
pub mod Build
pub mod Verified
