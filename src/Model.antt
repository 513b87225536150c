-- ===== src/Model.antt =====
-- software/sim/sim/simulation: the variables of the simulation models, their tables, and the model
-- of the power system.
mod Examples
pub mod Params
pub mod PssTables
pub mod MnsTables
pub mod MnsIsim
pub mod SmallTables
pub mod Registered
pub mod Initial
pub mod Checked
