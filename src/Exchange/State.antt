-- ===== src/Exchange/State.antt =====
-- software/sim/sim/systems/sub/interface/i_sys_algo.hpp: the state of one system's side of the bus,
-- its hooks, and the small helpers of sub/src/i_sys_algo.cpp. Pointers to blocks and bytes are
-- `Option`s of what they point at; the header's two pointers are a `HeaderStorage`.
use arachnopod.Base.{ℕ, ◌*◌, min, Bool, true, false, Option, none, some, List}
use arachnopod.Base.{u8, ◌==◌, if◌then◌else◌, get_or, set}
use arachnopod.MsgBlock
use arachnopod.MsgHeader.{HeaderStorage}
use arachnopod.MockBus.{MockBusState, mock_bus_read_u8, mock_bus_write_u8}
use arachnopod.Tables.Config.{arp_flag_cmd_req, arp_flag_data_resp}
use arachnopod.Exchange.Flags.{
  BusRole, ExchangeFlag, rx, RxFlag, rx_sof, TxFlag, tx_sof, ExchangeResult,
}

-- `bus_state_t`
pub record BusState : Type 0 where
  pub role : BusRole
  pub system_id : ℕ
  pub self_addr : ℕ
  pub target_addr : ℕ
  pub msg_header : HeaderStorage
  pub msg_cmd_buf_u8 : Option (List ℕ)
  pub msg_cmd_buf_u16 : Option (List ℕ)
  pub msg_prm_buf_u8 : Option (List ℕ)
  pub msg_prm_buf_u16 : Option (List ℕ)
  pub msg_cmd_u8 : Option (List ℕ)
  pub msg_cmd_u16 : Option (List ℕ)
  pub msg_prm_u8 : Option (List ℕ)
  pub msg_prm_u16 : Option (List ℕ)
  pub msg_cmd_blocks : ℕ
  pub msg_cmd_buf_blocks : ℕ
  pub msg_prm_blocks : ℕ
  pub msg_prm_buf_blocks : ℕ
  pub msg_cmd_frame_offset_blocks : ℕ
  pub msg_cmd_frame_blocks : ℕ
  pub msg_prm_frame_offset_blocks : ℕ
  pub msg_prm_frame_blocks : ℕ
  pub exchange_flag : ExchangeFlag
  pub rx_flag : RxFlag
  pub tx_flag : TxFlag
  pub msg_adr_flag : Bool
  pub msg_n_blocks : ℕ
  pub msg_flag : ℕ
  pub exchange_sub_clock : ℕ
  pub exchange_wait_clock : ℕ
  pub exchange_busy : Bool
  pub result_ready : Bool
  pub last_result : ExchangeResult
  pub writer_tick : ℕ

-- `bus_hooks_t`: each may be absent. `U` is what the hooks' `user` pointer points at.
pub record BusHooks (U : Type 0) : Type 0 where
  pub parse_header : Option (U → BusState → U × BusState)
  pub gen_header : Option (U → BusState → U × BusState)
  pub bypass : Option (U → BusState → U × BusState)
  pub log_exchange : Option (U → BusState → U)
  pub on_error : Option (U → BusState → U × BusState)

-- What an exchange step reads and changes: the system's side, the shared bus, the hooks' data.
pub record World (U : Type 0) : Type 0 where
  pub state : BusState
  pub bus : MockBusState
  pub user : U

abbrev pub call_hook_state : {U : Type 0} → Option (U → BusState → U × BusState) → World U → World U
call_hook_state none w = w
call_hook_state (some fn) w =
    let (user, state) = fn w.user w.state in record w { state = state; user = user }

abbrev pub call_hook_log : {U : Type 0} → Option (U → BusState → U) → World U → World U
call_hook_log none w = w
call_hook_log (some fn) w = record w { user = fn w.user w.state }

abbrev pub with_state : {U : Type 0} → World U → BusState → World U
with_state w s = record w { state = s }

unfoldable pub read_bus : {U : Type 0} → World U → Option ℕ
read_bus w = mock_bus_read_u8 w.state.writer_tick true w.bus

unfoldable pub write_bus : {U : Type 0} → ℕ → World U → World U
write_bus value w = record w { bus = mock_bus_write_u8 w.state.writer_tick value w.bus }

unfoldable pub clamp_frame_blocks : ℕ → ℕ → ℕ
clamp_frame_blocks requested buffer = if buffer == 0 then requested else min requested buffer

unfoldable pub cmd_frame_blocks : BusState → ℕ
unfolding clamp_frame_blocks
cmd_frame_blocks s =
    clamp_frame_blocks
      (if s.msg_cmd_frame_blocks == 0 then s.msg_cmd_blocks else s.msg_cmd_frame_blocks)
      s.msg_cmd_buf_blocks

unfoldable pub prm_frame_blocks : BusState → ℕ
unfolding clamp_frame_blocks
prm_frame_blocks s =
    clamp_frame_blocks
      (if s.msg_prm_frame_blocks == 0 then s.msg_prm_blocks else s.msg_prm_frame_blocks)
      s.msg_prm_buf_blocks

-- The index of a byte buffer is not checked by the source; its callers stay below the capacity.
unfoldable pub read_buffer_byte : Option (List ℕ) → ℕ → Option (List ℕ) → ℕ → Option ℕ
read_buffer_byte (some blocks) count buf i = MsgBlock.read_byte (some blocks) count i
read_buffer_byte none count none i = none
read_buffer_byte none count (some buf) i = some (get_or buf i 0)

-- The new words and bytes.
unfoldable pub write_buffer_byte :
    Option (List ℕ) → ℕ → Option (List ℕ) → ℕ → ℕ → Option (List ℕ) × Option (List ℕ)
write_buffer_byte (some blocks) count buf i value =
    ((MsgBlock.write_byte (some blocks) count i value).1, buf)
write_buffer_byte none count none i value = (none, none)
write_buffer_byte none count (some buf) i value = (none, some (set buf i value))

unfoldable pub expected_bytes : BusState → ℕ
expected_bytes s = s.msg_n_blocks * 2

unfoldable pub com_capacity_bytes : BusState → ℕ
unfolding cmd_frame_blocks
com_capacity_bytes s = cmd_frame_blocks s * 2

unfoldable pub par_capacity_bytes : BusState → ℕ
unfolding prm_frame_blocks
par_capacity_bytes s = prm_frame_blocks s * 2

unfoldable pub calc_nblocks : BusState → ℕ
calc_nblocks s =
    if s.msg_flag == arp_flag_cmd_req
    then u8 (cmd_frame_blocks s)
    else if s.msg_flag == arp_flag_data_resp
    then u8 (prm_frame_blocks s)
    else 0

unfoldable pub mark_result : ExchangeResult → BusState → BusState
mark_result result s = record s { last_result = result; result_ready = true }

unfoldable pub ibus_reset_frame_layout : BusState → BusState
unfolding clamp_frame_blocks
ibus_reset_frame_layout s = record s {
  msg_cmd_frame_offset_blocks = 0;
  msg_cmd_frame_blocks = clamp_frame_blocks s.msg_cmd_blocks s.msg_cmd_buf_blocks;
  msg_prm_frame_offset_blocks = 0;
  msg_prm_frame_blocks = clamp_frame_blocks s.msg_prm_blocks s.msg_prm_buf_blocks;
}

unfoldable pub reset_to_idle : BusState → BusState
unfolding clamp_frame_blocks
reset_to_idle s = record s {
  exchange_flag = rx;
  rx_flag = rx_sof;
  tx_flag = tx_sof;
  msg_adr_flag = false;
  msg_n_blocks = 0;
  msg_flag = arp_flag_cmd_req;
  exchange_sub_clock = 0;
  exchange_wait_clock = 0;
  exchange_busy = false;
  msg_cmd_frame_offset_blocks = 0;
  msg_cmd_frame_blocks = clamp_frame_blocks s.msg_cmd_blocks s.msg_cmd_buf_blocks;
  msg_prm_frame_offset_blocks = 0;
  msg_prm_frame_blocks = clamp_frame_blocks s.msg_prm_blocks s.msg_prm_buf_blocks;
}
