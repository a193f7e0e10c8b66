-- ===== src/Packs.antt =====
-- internal/packregistry: the registry of System Packs and the pack for development.
pub mod Registry
pub mod Registered
pub mod Align
pub mod Dev
pub mod Counts
