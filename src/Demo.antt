-- ===== src/Demo.antt =====
-- cmd/demo-ledger, cmd/demo-payment and cmd/demo-checkout: the captured system.
pub mod Ledger
pub mod Payment
pub mod Checkout
pub mod Outcomes
pub mod Effects
pub mod Ends
pub mod Once
