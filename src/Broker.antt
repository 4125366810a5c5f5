-- ===== src/Broker.antt =====
-- The broker of internal/broker: one module for each of its parts.
pub mod Approval
pub mod FairQueue
pub mod Lane
pub mod Lease
pub mod Lifecycle
pub mod Policy
pub mod Pool
pub mod Scheduler
pub mod Watch
