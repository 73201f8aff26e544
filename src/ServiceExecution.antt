-- ===== src/ServiceExecution.antt =====
-- apps/api/src/modules/service-execution: the work logs, the part requirements and the used parts of
-- a repair order, each recorded within the scope that the customer approved.
pub mod Bench
pub mod ApprovedScope
pub mod Access
pub mod UsedParts
pub mod Logs
pub mod Requirements
pub mod Quantity
pub mod Items
pub mod Facts
pub mod Updates
pub mod History
pub mod Bounds
pub mod Corrections
pub mod Bindings
pub mod Forks
mod Examples
