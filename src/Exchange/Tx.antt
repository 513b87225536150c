-- ===== src/Exchange/Tx.antt =====
-- The sending side of software/sim/sim/systems/sub/src/i_sys_algo.cpp: ITX_SOF, ITX_HEADER,
-- ITX_DATA and ITX_EOF.
use arachnopod.Base.{ℕ, ◌+◌, true, false, Option, none, some}
use arachnopod.Base.{u16, ltb, leb, ◌==◌, if◌then◌else◌}
use arachnopod.MsgHeader
use arachnopod.Tables.Config.{
  arp_bus_sof, arp_bus_eof, arp_flag_cmd_req, arp_flag_cmd_resp, arp_flag_data_req,
  arp_flag_data_resp,
}
use arachnopod.Exchange.Flags.{rx, rx_sof, tx_sof, tx_header, tx_data, tx_eof}
use arachnopod.Exchange.State.{
  BusState, BusHooks, World, call_hook_state, with_state, write_bus, read_buffer_byte,
  expected_bytes, com_capacity_bytes, par_capacity_bytes,
}
use arachnopod.Exchange.Frame.{ibus_gen_std_header}
use arachnopod.Exchange.Rx.{is_device, is_master}

-- `std::uint8_t value = 0`, overwritten by a read that succeeds.
abbrev pub value_or_zero : Option ℕ → ℕ
value_or_zero none = 0
value_or_zero (some value) = value

unfoldable pub itx_sof : {U : Type 0} → World U → World U
unfolding write_bus
itx_sof w = with_state (write_bus arp_bus_sof w) (record (w.state) {
  tx_flag = tx_header;
  exchange_sub_clock = 0;
  exchange_wait_clock = 0;
  exchange_busy = if is_master w.state.role then true else w.state.exchange_busy;
})

abbrev pub gen_with : {U : Type 0} → Option (U → BusState → U × BusState) → World U → World U
gen_with none w = with_state w (ibus_gen_std_header w.state)
gen_with (some fn) w = call_hook_state (some fn) w

unfoldable pub send_header_byte : {U : Type 0} → ℕ → World U → World U
unfolding write_bus
send_header_byte i w = write_bus (value_or_zero (MsgHeader.read_byte w.state.msg_header i)) w

unfoldable pub itx_header : {U : Type 0} → BusHooks U → World U → World U
unfolding send_header_byte
itx_header hooks w =
    let made = gen_with hooks.gen_header w in
    if w.state.exchange_sub_clock == 0
    then with_state (send_header_byte 0 made)
        (record (made.state) { exchange_sub_clock = 1; exchange_wait_clock = 0 })
    else if w.state.exchange_sub_clock == 1
    then with_state (send_header_byte 1 w) (record (w.state) {
      tx_flag = if ltb 0 w.state.msg_n_blocks then tx_data else tx_eof;
      exchange_sub_clock = 0;
      exchange_wait_clock = 0;
    })
    else w

-- The byte that `ITX_DATA` sends.
unfoldable pub data_byte : BusState → ℕ
data_byte s =
    if s.msg_flag == arp_flag_cmd_req
    then (if ltb s.exchange_sub_clock (com_capacity_bytes s)
        then value_or_zero (
            read_buffer_byte s.msg_cmd_buf_u16 s.msg_cmd_buf_blocks s.msg_cmd_buf_u8
              s.exchange_sub_clock)
        else 0)
    else if s.msg_flag == arp_flag_data_resp
    then (if ltb s.exchange_sub_clock (par_capacity_bytes s)
        then value_or_zero (
            read_buffer_byte s.msg_prm_buf_u16 s.msg_prm_buf_blocks s.msg_prm_buf_u8
              s.exchange_sub_clock)
        else 0)
    else 0

unfoldable pub itx_data : {U : Type 0} → World U → World U
unfolding write_bus
itx_data w =
    let clock = u16 (w.state.exchange_sub_clock + 1) in
    with_state (write_bus (data_byte w.state) w) (record (w.state) {
      exchange_sub_clock = clock;
      exchange_wait_clock = 0;
      tx_flag = if leb (expected_bytes w.state) clock then tx_eof else w.state.tx_flag;
    })

-- What a master waits for after it has sent a frame.
unfoldable pub await_answer : BusState → BusState
await_answer s =
    if s.msg_flag == arp_flag_cmd_req
    then record s { msg_flag = arp_flag_cmd_resp }
    else if s.msg_flag == arp_flag_data_req
    then record s { msg_flag = arp_flag_data_resp }
    else record s { exchange_busy = false; msg_flag = arp_flag_cmd_req }

-- `ITX_EOF` after the byte is written.
unfoldable pub leave_tx : BusState → BusState
unfolding await_answer
leave_tx s =
    let idle = record s {
      rx_flag = rx_sof;
      exchange_flag = rx;
      exchange_sub_clock = 0;
      exchange_wait_clock = 0;
      tx_flag = tx_sof;
    } in
    if is_device s.role
    then record idle { exchange_busy = false; msg_flag = arp_flag_cmd_req }
    else await_answer idle

unfoldable pub itx_eof : {U : Type 0} → World U → World U
unfolding write_bus leave_tx
itx_eof w = with_state (write_bus arp_bus_eof w) (leave_tx w.state)
