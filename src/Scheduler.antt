-- ===== src/Scheduler.antt =====
-- software/sim/sim/systems/cs: the scheduler that decides which exchange CS makes next, by
-- cs_scheduler_support.cpp and cs_scheduler.cpp.
mod Examples
pub mod Types
pub mod State
pub mod Queues
pub mod Tasks
pub mod Slots
pub mod Fairness
pub mod Consistent
pub mod Placing
pub mod Requests
pub mod Requeued
pub mod Clients
pub mod Taken
pub mod Popping
pub mod Activated
