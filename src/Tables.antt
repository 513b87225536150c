-- ===== src/Tables.antt =====
-- The generated tables of software/sim/sim/systems/base and the constants that go with them.
mod Examples
pub mod Config
pub mod Entry
pub mod Commands
pub mod Params
pub mod PssIds
pub mod Rows
pub mod Layout
