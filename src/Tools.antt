-- ===== src/Tools.antt =====
-- software/sim/sim/systems/sub/internal/system_software_tools.hpp and ISYSCTX of sub/src/i_sys.cpp:
-- what the software of every system keeps. The texts of the log are not modelled.
-- A system's arrays are those that its bus state points at. The byte pointers are second views of
-- the same arrays: the exchange reads the words where there are words, so the views of the blocks
-- are left out.
use arachnopod.Base.{
  ℕ, ◌+◌, Bool, true, false, ◌||◌, none, some, Option, List, replicate, u64, leb, ◌==◌,
  if◌then◌else◌,
}
use arachnopod.Sys.{TickState, isysclear}
use arachnopod.MsgHeader.{HeaderStorage, bytes_of, write_raw}
use arachnopod.Ipar.Context.{Role, ParContext}
use arachnopod.Isim.Registry.{ParamEntry, isimreg_build}
use arachnopod.Isim.Values.{Binding}
use arachnopod.Exchange.Flags.{BusRole}
use arachnopod.Exchange.State.{BusState}
use arachnopod.Exchange.Frame.{Buffers, ibus_bind_std}

unfoldable pub isysctx : Role → ℕ → Option (List ℕ) → ℕ → Option (List ℕ) → ℕ → ParContext
isysctx role system_id msg_prm msg_prm_blocks msg_cmd msg_cmd_blocks = record {
  role = role;
  system_id = system_id;
  msg_prm = msg_prm;
  msg_prm_blocks = msg_prm_blocks;
  msg_cmd = msg_cmd;
  msg_cmd_blocks = msg_cmd_blocks;
}

-- The sizes of `wire_storage_t`.
pub record WireSizes : Type 0 where
  pub cmd_buf_blocks : ℕ
  pub prm_buf_blocks : ℕ
  pub cmd_blocks : ℕ
  pub prm_blocks : ℕ

-- `software_state_t`; the tick state is held by the system's tick.
pub record SoftwareState : Type 0 where
  pub initialized : Bool
  pub current_tick : ℕ

-- The context of the arrays at which a bus state points.
unfoldable pub make_imsg_context : Role → ℕ → WireSizes → BusState → ParContext
unfolding isysctx
make_imsg_context role system_id sizes s =
    isysctx role system_id s.msg_prm_u16 sizes.prm_blocks s.msg_cmd_u16 sizes.cmd_blocks

unfoldable pub clear_wire_storage : WireSizes → BusState → BusState
clear_wire_storage sizes s = record s {
  msg_prm_u16 = isysclear s.msg_prm_u16 0 sizes.prm_blocks;
  msg_cmd_u16 = isysclear s.msg_cmd_u16 0 sizes.cmd_blocks;
  msg_cmd_buf_u16 = isysclear s.msg_cmd_buf_u16 0 sizes.cmd_buf_blocks;
  msg_prm_buf_u16 = isysclear s.msg_prm_buf_u16 0 sizes.prm_buf_blocks;
  msg_header = write_raw s.msg_header 0;
}

unfoldable pub reset_software_state : SoftwareState
reset_software_state = record { initialized = true; current_tick = 0 }

-- Whether to log, and the new `last_tick_log_count`.
unfoldable pub should_log_tick : TickState → ℕ → ℕ → Bool × ℕ
should_log_tick tick last period =
    if leb tick.count 1 || ((tick.clock == 1) || leb (u64 (last + period)) tick.count)
    then (true, tick.count)
    else (false, last)

-- The zero-initialised storage of a system.
unfoldable pub wire_storage : WireSizes → Buffers
wire_storage sizes = record {
  msg_cmd_buf_u8 = none;
  msg_cmd_buf_u16 = some (replicate sizes.cmd_buf_blocks 0);
  msg_cmd_buf_blocks = sizes.cmd_buf_blocks;
  msg_prm_buf_u8 = none;
  msg_prm_buf_u16 = some (replicate sizes.prm_buf_blocks 0);
  msg_prm_buf_blocks = sizes.prm_buf_blocks;
  msg_cmd_u8 = none;
  msg_cmd_u16 = some (replicate sizes.cmd_blocks 0);
  msg_prm_u8 = none;
  msg_prm_u16 = some (replicate sizes.prm_blocks 0);
  msg_cmd_blocks = sizes.cmd_blocks;
  msg_prm_blocks = sizes.prm_blocks;
}

-- The bus state bound to a storage that nothing has written to.
unfoldable pub bind_standard_bus : BusRole → ℕ → ℕ → ℕ → WireSizes → BusState
unfolding wire_storage ibus_bind_std
bind_standard_bus role system_id self_addr target_addr sizes =
    let header : HeaderStorage = record { header_u16 = some 0; header_u8 = some (bytes_of 0) } in
    ibus_bind_std role system_id self_addr target_addr header (wire_storage sizes)

unfoldable pub build_isim_registry : List ParamEntry → List Binding
build_isim_registry params = isimreg_build params
