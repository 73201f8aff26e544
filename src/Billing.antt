-- ===== src/Billing.antt =====
-- Money on a repair order: recording payments, and handing the device over.
pub mod Desk
pub mod Balance
pub mod Payments
pub mod Handovers
pub mod Facts
pub mod Closing
pub mod Ledger
mod Examples
