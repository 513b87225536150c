-- ===== src/Cs.antt =====
-- software/sim/sim/systems/cs/src: the exchanges of CS, from the tasks of the scheduler to the bus.
mod Examples
pub mod Nodes
pub mod Windows
pub mod Control
pub mod Arm
pub mod Armed
pub mod Systems
pub mod Periodic
pub mod Ended
pub mod Invariant
pub mod Operations
