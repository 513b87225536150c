-- ===== src/Exchange/Frame.antt =====
-- The frame windows, results and headers of software/sim/sim/systems/sub/src/i_sys_algo.cpp:
-- IBUS_BIND_STD, IBUS_SET_CMD_FRAME, IBUS_SET_PRM_FRAME, IBUS_CLEAR_RESULT, IBUS_TAKE_RESULT, the
-- standard header, the copies to the transport buffers, and merge_nonzero_cmd_fields.
use arachnopod.Base.{ℕ, ◌+◌, min, Bool, true, false, ◌||◌, Option, none, some, List, [], ◌∷◌}
use arachnopod.Base.{u8, u64, ltb, ◌==◌, if◌then◌else◌}
use arachnopod.MsgBlock
use arachnopod.MsgHeader
use arachnopod.MsgHeader.{HeaderStorage, is_null}
use arachnopod.Tables.Config.{arp_flag_cmd_req, sys_none}
use arachnopod.Tables.Entry.{Entry, type_width_bits}
use arachnopod.Tables.Commands.{base_comm_tab}
use arachnopod.Exchange.Flags.{BusRole, ExchangeResult, ExchangeFlag, RxFlag, TxFlag}
use arachnopod.Exchange.State.{BusState, clamp_frame_blocks, calc_nblocks}

-- The block arrays, with their counts, that a system gives to its bus state.
pub record Buffers : Type 0 where
  pub msg_cmd_buf_u8 : Option (List ℕ)
  pub msg_cmd_buf_u16 : Option (List ℕ)
  pub msg_cmd_buf_blocks : ℕ
  pub msg_prm_buf_u8 : Option (List ℕ)
  pub msg_prm_buf_u16 : Option (List ℕ)
  pub msg_prm_buf_blocks : ℕ
  pub msg_cmd_u8 : Option (List ℕ)
  pub msg_cmd_u16 : Option (List ℕ)
  pub msg_prm_u8 : Option (List ℕ)
  pub msg_prm_u16 : Option (List ℕ)
  pub msg_cmd_blocks : ℕ
  pub msg_prm_blocks : ℕ

-- The fields that the source leaves at the defaults of `bus_state_t{}` are written out.
unfoldable pub ibus_bind_std : BusRole → ℕ → ℕ → ℕ → HeaderStorage → Buffers → BusState
unfolding clamp_frame_blocks
ibus_bind_std role system_id self_addr target_addr header b = record {
  role = role;
  system_id = system_id;
  self_addr = self_addr;
  target_addr = target_addr;
  msg_header = header;
  msg_cmd_buf_u8 = b.msg_cmd_buf_u8;
  msg_cmd_buf_u16 = b.msg_cmd_buf_u16;
  msg_prm_buf_u8 = b.msg_prm_buf_u8;
  msg_prm_buf_u16 = b.msg_prm_buf_u16;
  msg_cmd_u8 = b.msg_cmd_u8;
  msg_cmd_u16 = b.msg_cmd_u16;
  msg_prm_u8 = b.msg_prm_u8;
  msg_prm_u16 = b.msg_prm_u16;
  msg_cmd_blocks = b.msg_cmd_blocks;
  msg_cmd_buf_blocks = b.msg_cmd_buf_blocks;
  msg_prm_blocks = b.msg_prm_blocks;
  msg_prm_buf_blocks = b.msg_prm_buf_blocks;
  msg_cmd_frame_offset_blocks = 0;
  msg_cmd_frame_blocks = clamp_frame_blocks b.msg_cmd_blocks b.msg_cmd_buf_blocks;
  msg_prm_frame_offset_blocks = 0;
  msg_prm_frame_blocks = clamp_frame_blocks b.msg_prm_blocks b.msg_prm_buf_blocks;
  exchange_flag = ExchangeFlag.rx;
  rx_flag = RxFlag.rx_sof;
  tx_flag = TxFlag.tx_sof;
  msg_adr_flag = false;
  msg_n_blocks = 0;
  msg_flag = arp_flag_cmd_req;
  exchange_sub_clock = 0;
  exchange_wait_clock = 0;
  exchange_busy = false;
  result_ready = false;
  last_result = ExchangeResult.none;
  writer_tick = 0;
}

abbrev pub take_header : Option MsgHeader.Value → BusState → BusState
take_header none s = record s { msg_adr_flag = false; msg_n_blocks = 0 }
take_header (some header) s = record s {
  msg_adr_flag = header.addr == s.self_addr;
  msg_flag = header.flag;
  msg_n_blocks = header.nblocks;
}

unfoldable pub ibus_parse_std_header : BusState → BusState
ibus_parse_std_header s = take_header (MsgHeader.parse_storage s.msg_header) s

unfoldable pub ibus_gen_std_header : BusState → BusState
ibus_gen_std_header s = if is_null s.msg_header then s else record s {
  msg_n_blocks = calc_nblocks s;
  msg_header = MsgHeader.write_storage s.msg_header (record {
    parity = 0;
    addr = s.target_addr;
    flag = s.msg_flag;
    marker = u8 s.writer_tick;
    nblocks = calc_nblocks s;
  });
}

-- The sum is of `size_t`, and wraps.
unfoldable pub ibus_set_cmd_frame : ℕ → ℕ → BusState → Bool × BusState
ibus_set_cmd_frame offset count s =
    if ltb s.msg_cmd_blocks offset
      || (ltb s.msg_cmd_blocks count
          || (ltb s.msg_cmd_blocks (u64 (offset + count)) || ltb s.msg_cmd_buf_blocks count))
    then (false, s)
    else (true, record s { msg_cmd_frame_offset_blocks = offset; msg_cmd_frame_blocks = count })

unfoldable pub ibus_set_prm_frame : ℕ → ℕ → BusState → Bool × BusState
ibus_set_prm_frame offset count s =
    if ltb s.msg_prm_blocks offset
      || (ltb s.msg_prm_blocks count
          || (ltb s.msg_prm_blocks (u64 (offset + count)) || ltb s.msg_prm_buf_blocks count))
    then (false, s)
    else (true, record s { msg_prm_frame_offset_blocks = offset; msg_prm_frame_blocks = count })

unfoldable pub ibus_clear_result : BusState → BusState
ibus_clear_result s = record s { result_ready = false; last_result = ExchangeResult.none }

-- `none` is the `false` of the source.
unfoldable pub ibus_take_result : BusState → Option ExchangeResult × BusState
ibus_take_result s =
    if s.result_ready
    then (some s.last_result, record s { result_ready = false; last_result = ExchangeResult.none })
    else (none, s)

-- Both pointers must be set; the copy starts at block 0 of both arrays.
abbrev pub sync_blocks : Option (List ℕ) → ℕ → Option (List ℕ) → ℕ → Option (List ℕ)
sync_blocks dst dst_blocks none src_blocks = dst
sync_blocks dst dst_blocks (some src) src_blocks =
    MsgBlock.copy_blocks dst dst_blocks 0 (some src) src_blocks 0 (min dst_blocks src_blocks)

unfoldable pub isys_sync_msgcmd_to_buf : BusState → BusState
isys_sync_msgcmd_to_buf s = record s {
  msg_cmd_buf_u16 =
      sync_blocks s.msg_cmd_buf_u16 s.msg_cmd_buf_blocks s.msg_cmd_u16 s.msg_cmd_blocks;
}

unfoldable pub isys_sync_msgprm_to_buf : BusState → BusState
isys_sync_msgprm_to_buf s = record s {
  msg_prm_buf_u16 =
      sync_blocks s.msg_prm_buf_u16 s.msg_prm_buf_blocks s.msg_prm_u16 s.msg_prm_blocks;
}

-- One row of the loop of `merge_nonzero_cmd_fields`: the field's new place in `msg_cmd_u16`.
abbrev pub merge_value : Option ℕ → Entry → ℕ → Option (List ℕ) → Option (List ℕ)
merge_value none e blocks cmd = cmd
merge_value (some raw) e blocks cmd =
    if raw == 0
    then cmd
    else (MsgBlock.write_value cmd blocks e.msg_block_n e.msg_block_offset (type_width_bits e.type)
        raw).1

unfoldable pub merge_row : ℕ → Entry → Option (List ℕ) → ℕ → Option (List ℕ) → ℕ → Option (List ℕ)
merge_row system_id e buf buf_blocks cmd cmd_blocks =
    if e.sys_id == system_id
    then (if type_width_bits e.type == 0
        then cmd
        else merge_value
            (MsgBlock.read_value buf buf_blocks e.msg_block_n e.msg_block_offset
              (type_width_bits e.type))
            e cmd_blocks cmd)
    else cmd

unfoldable pub merge_rows :
    List Entry → ℕ → Option (List ℕ) → ℕ → Option (List ℕ) → ℕ → Option (List ℕ)
merge_rows [] system_id buf buf_blocks cmd cmd_blocks = cmd
merge_rows (e ∷ es) system_id buf buf_blocks cmd cmd_blocks =
    merge_rows es system_id buf buf_blocks (merge_row system_id e buf buf_blocks cmd cmd_blocks)
      cmd_blocks

unfoldable pub merge_nonzero_cmd_fields : BusState → BusState
merge_nonzero_cmd_fields s = if s.system_id == sys_none then s else record s {
  msg_cmd_u16 =
      merge_rows base_comm_tab s.system_id s.msg_cmd_buf_u16 s.msg_cmd_buf_blocks s.msg_cmd_u16
        s.msg_cmd_blocks;
}
