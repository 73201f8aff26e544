-- ===== src/Portal.antt =====
-- apps/api/src/modules/public-portal: what a customer's link shows and decides.
pub mod Decision
pub mod Choice
pub mod Groups
pub mod Links
pub mod Snapshot
pub mod Visit
pub mod Lineage
pub mod Deciding
pub mod Taken
pub mod Settled
pub mod RoundTrip
mod Examples
mod Visits
