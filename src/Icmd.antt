-- ===== src/Icmd.antt =====
-- software/sim/sim/systems/sub/src/i_cmd.cpp and i_cmd_exec.cpp: the commands in a system's message
-- and their execution on the variables of the simulation.
mod Examples
pub mod Command
pub mod Exec
pub mod Cleared
pub mod Pair
