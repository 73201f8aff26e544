-- ===== src/RepairOrders.antt =====
-- The repair-order state machine: apps/api/src/modules/repair-orders/state-machine.
pub mod Types
pub mod Graph
pub mod WorkLogs
pub mod Scope
pub mod Permission
pub mod Guards
pub mod Transition
pub mod Lifecycle
pub mod Refinement
mod Examples
