-- ===== src/Pss.antt =====
-- software/sim/sim/systems/pss: the software of the power system.
mod Examples
pub mod Commands
pub mod System
pub mod Power
pub mod Interlock
pub mod Start
