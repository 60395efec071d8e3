-- ===== src/Metering.antt =====
-- The metering package: costs, the budget ledger, the admission hooks.
pub mod Cost
pub mod Ledger
pub mod Admitter
pub mod Tiers
pub mod Defer
