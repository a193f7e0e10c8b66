-- ===== src/Checkout.antt =====
-- internal/systempack/checkout: the System Pack of the duplicate ledger effect.
pub mod Oracle
pub mod Fixtures
pub mod Rules
pub mod Evidence
pub mod Detect
pub mod Align
pub mod Alignment
pub mod Occurrence
pub mod Itself
pub mod Compare
pub mod Pack
