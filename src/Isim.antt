-- ===== src/Isim.antt =====
-- software/sim/sim/systems/sub/src/i_sim.cpp and i_isim_registry.cpp: the access of a system's
-- software to the variables of its simulation model, by the identifier of a parameter.
mod Examples
pub mod Values
pub mod Registry
pub mod Access
pub mod Stored
