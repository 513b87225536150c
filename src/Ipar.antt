-- ===== src/Ipar.antt =====
-- software/sim/sim/systems/sub/src/i_par.cpp: the values of parameters and commands in the messages.
pub mod WholeFloats
mod Examples
pub mod Codes
pub mod Context
pub mod Floats
pub mod Convert
pub mod Access
pub mod RoundTrip
pub mod Places
pub mod Transport
