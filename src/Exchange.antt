-- ===== src/Exchange.antt =====
-- software/sim/sim/systems/sub/src/i_sys_algo.cpp: the bus exchange of one system.
mod Examples
pub mod Flags
pub mod State
pub mod Frame
pub mod Rx
pub mod Tx
pub mod Run
pub mod Timeout
pub mod Reception
pub mod Command
pub mod Receive
pub mod Transmission
pub mod Transmit
pub mod Sent
pub mod Transfer
pub mod SysAlg
