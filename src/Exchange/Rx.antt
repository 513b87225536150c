-- ===== src/Exchange/Rx.antt =====
-- The receiving side of software/sim/sim/systems/sub/src/i_sys_algo.cpp: IRX_SOF, IRX_HEADER,
-- IRX_DATA and IRX_EOF.
use arachnopod.Base.{ℕ, ◌+◌, Bool, true, false, ◌&&◌, ◌||◌, Option, none, some}
use arachnopod.Base.{u16, ltb, leb, ◌==◌, if◌then◌else◌}
use arachnopod.MsgBlock
use arachnopod.MsgHeader
use arachnopod.Tables.Config.{
  arp_bus_sof, arp_bus_eof, arp_flag_cmd_req, arp_flag_cmd_resp, arp_flag_data_req,
  arp_flag_data_resp,
}
use arachnopod.Exchange.Flags.{
  BusRole, device, master, tx, rx_header, rx_data, rx_eof, tx_sof, success, invalid_eof,
}
use arachnopod.Exchange.State.{
  BusState, BusHooks, World, call_hook_state, with_state, read_bus, prm_frame_blocks,
  write_buffer_byte, expected_bytes, com_capacity_bytes, par_capacity_bytes, mark_result,
  reset_to_idle,
}
use arachnopod.Exchange.Frame.{ibus_parse_std_header, merge_nonzero_cmd_fields}

abbrev pub is_device : BusRole → Bool
is_device device = true
is_device master = false

abbrev pub is_master : BusRole → Bool
is_master device = false
is_master master = true

-- The state after a byte `value` in the state `rx_sof`.
unfoldable pub take_sof : ℕ → BusState → BusState
take_sof value s =
    if value == arp_bus_sof
    then record s {
      rx_flag = rx_header;
      exchange_sub_clock = 0;
      exchange_wait_clock = 0;
      exchange_busy = if is_device s.role then true else s.exchange_busy;
    }
    else s

-- What a handler does with the byte on the bus, if there is one.
abbrev pub on_byte : {U : Type 0} → Option ℕ → (ℕ → World U → World U) → World U → World U
on_byte none f w = w
on_byte (some value) f w = f value w

unfoldable pub irx_sof : {U : Type 0} → World U → World U
unfolding take_sof
irx_sof w = on_byte (read_bus w) (λ value w. with_state w (take_sof value w.state)) w

unfoldable pub put_header_byte : ℕ → ℕ → BusState → BusState
put_header_byte i value s = record s {
  msg_header = (MsgHeader.write_byte s.msg_header i value).1;
  exchange_wait_clock = 0;
}

-- The hook, or the standard parser.
abbrev pub parse_with : {U : Type 0} → Option (U → BusState → U × BusState) → World U → World U
parse_with none w = with_state w (ibus_parse_std_header w.state)
parse_with (some fn) w = call_hook_state (some fn) w

unfoldable pub enter_data : BusState → BusState
enter_data s = record s {
  rx_flag = if ltb 0 s.msg_n_blocks then rx_data else rx_eof;
  exchange_sub_clock = 0;
}

unfoldable pub irx_header : {U : Type 0} → BusHooks U → World U → World U
unfolding put_header_byte enter_data
irx_header hooks w =
    if w.state.exchange_sub_clock == 0
    then on_byte (read_bus w)
        (λ value w.
          with_state w (record (put_header_byte 0 value w.state) { exchange_sub_clock = 1 }))
        w
    else if w.state.exchange_sub_clock == 1
    then on_byte (read_bus w)
        (λ value w.
          let parsed =
            parse_with hooks.parse_header (with_state w (put_header_byte 1 value w.state)) in
          with_state parsed (enter_data parsed.state))
        w
    else w

abbrev pub read_allowed : BusState → Bool
read_allowed s =
    s.msg_adr_flag && (s.msg_flag == arp_flag_cmd_req || s.msg_flag == arp_flag_data_resp)

-- The byte goes to the command or the parameter buffer, at the index of the sub clock.
unfoldable pub store_data : ℕ → BusState → BusState
store_data value s =
    let cmd =
      write_buffer_byte s.msg_cmd_buf_u16 s.msg_cmd_buf_blocks s.msg_cmd_buf_u8 s.exchange_sub_clock
        value in
    let prm =
      write_buffer_byte s.msg_prm_buf_u16 s.msg_prm_buf_blocks s.msg_prm_buf_u8 s.exchange_sub_clock
        value in
    if read_allowed s
    then (if s.msg_flag == arp_flag_cmd_req
        then (if ltb s.exchange_sub_clock (com_capacity_bytes s)
            then record s { msg_cmd_buf_u16 = cmd.0; msg_cmd_buf_u8 = cmd.1 }
            else s)
        else if s.msg_flag == arp_flag_data_resp
        then (if ltb s.exchange_sub_clock (par_capacity_bytes s)
            then record s { msg_prm_buf_u16 = prm.0; msg_prm_buf_u8 = prm.1 }
            else s)
        else s)
    else s

unfoldable pub next_data : BusState → BusState
next_data s =
    let clock = u16 (s.exchange_sub_clock + 1) in
    record s {
      exchange_sub_clock = clock;
      rx_flag = if leb (expected_bytes s) clock then rx_eof else s.rx_flag;
    }

unfoldable pub irx_data : {U : Type 0} → World U → World U
irx_data w =
    on_byte (read_bus w)
      (λ value w.
        with_state w (next_data (store_data value (record w.state { exchange_wait_clock = 0 }))))
      w

-- A request was received: the answer is sent next.
unfoldable pub answer_with : ℕ → BusState → BusState
answer_with flag s = record s {
  msg_flag = flag;
  tx_flag = tx_sof;
  exchange_flag = tx;
  exchange_sub_clock = 0;
}

-- The last writes of `IRX_EOF`: a master notes success, and all go idle.
unfoldable pub finish_rx : BusState → BusState
unfolding mark_result
finish_rx s = reset_to_idle (if is_master s.role then mark_result success s else s)

unfoldable pub copy_response : BusState → BusState
copy_response s = record s {
  msg_prm_u16 =
      MsgBlock.copy_blocks s.msg_prm_u16 s.msg_prm_blocks s.msg_prm_frame_offset_blocks
        s.msg_prm_buf_u16 s.msg_prm_buf_blocks 0 (prm_frame_blocks s);
}

-- What follows a good end byte.
unfoldable pub accept_frame : BusState → BusState
unfolding answer_with finish_rx copy_response
accept_frame s =
    if s.msg_adr_flag
    then (if s.msg_flag == arp_flag_cmd_req
        then answer_with arp_flag_cmd_resp (merge_nonzero_cmd_fields s)
        else if s.msg_flag == arp_flag_data_req
        then answer_with arp_flag_data_resp s
        else if s.msg_flag == arp_flag_data_resp
        then finish_rx (copy_response s)
        else finish_rx s)
    else reset_to_idle s

unfoldable pub fail_frame : {U : Type 0} → BusHooks U → World U → World U
unfolding mark_result
fail_frame hooks w =
    let called = call_hook_state hooks.on_error (with_state w (mark_result invalid_eof w.state)) in
    with_state called (reset_to_idle called.state)

unfoldable pub irx_eof : {U : Type 0} → BusHooks U → World U → World U
unfolding fail_frame
irx_eof hooks w =
    on_byte (read_bus w)
      (λ value w.
        if value == arp_bus_eof then with_state w (accept_frame w.state) else fail_frame hooks w)
      w
