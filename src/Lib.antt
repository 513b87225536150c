-- ===== src/Lib.antt =====
-- A model of the simulated on-board software of Arachnopod, in software/sim/sim/systems.
--
-- Each system (CS, the central one, and PSS, TCS, TMS, MNS, LS) keeps its commands and parameters
-- as fields in arrays of 16-bit blocks; the generated tables say where. The systems share one
-- byte bus. In each tick of the simulation the bus goes on and each system makes one step of its
-- exchange, in which it reads or writes at most one byte: a frame is a start byte, a header of two
-- bytes, data blocks and an end byte. CS, the master, sends; the others answer. Above this, the
-- operating mode of CS decides which systems it polls, from the results of the exchanges that its
-- scheduler reports.
--
-- Files, and the code each models:
--   Base         shared names: arrays as lists, binary digits, word sizes; no code of its own.
--   MsgBlock     sub/src/i_msg_block.cpp: read_value, write_value, read_byte, write_byte,
--                copy_blocks. A block is a number below 2 ^ 16, a pointer an Option. Fields,
--                Values, Bytes and Copy prove what the operations do.
--   MsgHeader    sub/src/i_msg_header.cpp: the header word, with its bit-fields as digits from the
--                lowest on, its parity and its two views.
--   MockBus      bus_mock/src/mock_bus.cpp: the visible and the pending byte.
--   Sys          sub/src/i_sys.cpp: the clocks and ISYSCLEAR.
--   Tables       base/command_tab.hpp and base/param_tab.hpp row for row, the constants of the
--                other headers there and of software/common/include/arp_config.hpp.
--   Exchange     sub/src/i_sys_algo.cpp and sub/interface/i_sys_algo.hpp: State has bus_state_t and
--                the small helpers, Frame the IBUS_* operations on headers and frame windows, Rx
--                and Tx the steps IRX_* and ITX_*, Run the dispatch IBUS_EXCHANGE. Hooks are
--                functions on the state and on the data that their user pointer points at. The
--                other children prove what a system receives, sends and waits for.
--   SysAlg, a child of Exchange, is ISYS_EXPORT_MODEL_PARAMS, ISYSALG and ISYSBASEALG of the same
--                file, the tick of a system, whose hooks are functions on its state.
--   Ipar         sub/src/i_par.cpp: IMSGGET and IMSGSET, which convert between calibrated values and
--                the fields of messages. Context finds the field, Codes encodes it, Convert chooses
--                the word; RoundTrip and Transport prove what arrives. Floating point arithmetic is
--                the parameter FloatOps; what IEEE 754 promises of small integers is the record
--                IsExact. WholeFloats is an instance of both for tests.
--   Isim         sub/src/i_sim.cpp and i_isim_registry.cpp: the variables of the simulation by
--                identifier. The addresses of variables are places in a list.
--   Icmd         sub/src/i_cmd.cpp and i_cmd_exec.cpp: commands in a message, and their execution on
--                variables.
--   Model        simulation/base/include: sim_base.hpp in Params, and the tables of the six systems
--                row for row; Registered, Initial and Checked prove what the tables guarantee.
--   Tools        sub/internal/system_software_tools.hpp: storage, binding and clearing.
--   Pss          pss/src: the commands of the power system, its hooks, its start and its tick.
--   OperatingMode  cs/src/cs_operating_mode.cpp and cs_operating_mode_support.cpp; what it answers
--                to its clients is in Queries.
--   Scheduler    cs/src/cs_scheduler.cpp and cs_scheduler_support.cpp: the task slots, the queues
--                and the requests of the clients. Consistent states how slots and queues agree;
--                Placing, Requests, Requeued, Clients, Taken, Popping and Activated prove it of each
--                operation.
--   Cs           cs/src/cs_scheduler.cpp, cs_scheduler_support.cpp and cs_support.cpp where the
--                scheduler meets the bus: the layouts of nodes, the windows of commands, the control
--                of exchanges and their arming. Systems is the start of CS, the policy of the nodes
--                (cs_nodes.cpp, cs_systems.cpp, cs_systems_support.cpp) and the tick after the
--                console. Operations runs any sequence of these.
--
-- Every name of an operation is the source's, in small letters. C++ references and globals are
-- explicit state: an operation takes the state and returns it. `true` with an out parameter is
-- `some`, `false` is `none`. Integers of w bits are natural numbers, with the wrap-around written
-- out where the source can overflow. Loops are structural recursion on the number of rounds left,
-- which is the bound of the source's loop, so no fuel is needed.
--
-- Not modelled: log lines and texts, the console of CS with its sockets and the handling of its
-- commands, threads and timing of the simulator, the physics of the simulation, the generator
-- scripts. The tick of CS as a whole is not composed, since the handling of the console is a part
-- of it; the rest of the tick is in Cs/Systems and Cs/Arm. All hooks of the bus are null pointers in
-- this code base, so the theorems about frames are about the exchange without hooks.
pub mod Base
pub mod Cs
pub mod Exchange
pub mod Icmd
pub mod Ipar
pub mod Isim
pub mod MockBus
pub mod Model
pub mod MsgBlock
pub mod MsgHeader
pub mod OperatingMode
pub mod Pss
pub mod Scheduler
pub mod Sys
pub mod Tables
pub mod Tools
