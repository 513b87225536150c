-- ===== src/Exchange/Receive.antt =====
-- What a device of i_sys_algo.cpp makes of the bytes that it finds on the bus.
use arachnopod.Base.{ℕ, suc, ◌*◌, ◌≤◌, ◌<◌, true, false, some, List, [], ◌∷◌, ◌++◌}
use arachnopod.Base.{◌≡◌, refl, ◌∙◌, ap, arith, ltb, if◌then◌else◌, length, get_or, All}
use arachnopod.MsgBlock
use arachnopod.MsgBlock.Values.{IsBlocks}
use arachnopod.MsgHeader.{is_null, byte_low, byte_high}
use arachnopod.MockBus.{mock_bus_read_u8}
use arachnopod.Tables.Config.{arp_bus_sof, arp_bus_eof, arp_flag_cmd_resp}
use arachnopod.Exchange.Flags.{device, rx, tx, RxFlag, rx_sof, rx_header, rx_data, rx_eof, tx_sof}
use arachnopod.Exchange.State.{
  BusState, World, with_state, read_bus, cmd_frame_blocks, reset_to_idle, mark_result,
}
use arachnopod.Exchange.Frame.{
  ibus_parse_std_header, merge_nonzero_cmd_fields, isys_sync_msgcmd_to_buf, isys_sync_msgprm_to_buf,
}
use arachnopod.Exchange.Rx.{
  take_sof, put_header_byte, enter_data, store_data, next_data, accept_frame, finish_rx,
  answer_with,
}
use arachnopod.Exchange.Run.{no_hooks, ibus_exchange, ibus_rx_exchange, exchange_dispatch}
use arachnopod.Exchange.Reception.{rx_by, header_byte, rx_pure, feed_pure, rx_dispatch-byte}
use arachnopod.Exchange.Command.{Announces, receive_pure}

-- A system with the byte `value` on its bus.
abbrev pub hearing_world : ℕ → BusState → World Unit
hearing_world value s = record {
  state = s;
  bus = record {
    visible_data = value;
    visible_tick = s.writer_tick;
    visible_valid = true;
    pending_data = 0;
    pending_tick = 0;
    pending_valid = false;
  };
  user = tt;
}

-- The state after a receiving step of a system without hooks that finds the byte `value`.
unfoldable pub rx_byte : ℕ → BusState → BusState
rx_byte value s = (ibus_rx_exchange no_hooks (hearing_world value s)).state

-- The bytes `values` found in one receiving step each.
unfoldable pub feed : List ℕ → BusState → BusState
feed [] s = s
feed (v ∷ vs) s = feed vs (rx_byte v s)

read_bus-hearing : (value : ℕ) (s : BusState) → read_bus (hearing_world value s) ≡ some value
unfolding read_bus mock_bus_read_u8
read_bus-hearing value s = ground arith

rx_byte_device :
    {U : Type 0} (w : World U) (value : ℕ)
    → w.state.role ≡ device
    → read_bus w ≡ some value
    → ibus_rx_exchange no_hooks w ≡ with_state w (rx_pure value w.state)
unfolding ibus_rx_exchange rx_pure
rx_byte_device w value r h = simp r (rx_dispatch-byte w.state.rx_flag w value h)

rx_byte-rx_pure : (value : ℕ) (s : BusState) → s.role ≡ device → rx_byte value s ≡ rx_pure value s
unfolding rx_byte
rx_byte-rx_pure value s r =
    ap (λ w. w.state) (rx_byte_device (hearing_world value s) value r (read_bus-hearing value s))

role-accept_frame : (s : BusState) → (accept_frame s).role ≡ s.role
unfolding accept_frame finish_rx merge_nonzero_cmd_fields answer_with reset_to_idle mark_result
    isys_sync_msgcmd_to_buf isys_sync_msgprm_to_buf
role-accept_frame s = ground arith

role-rx_by : (f : RxFlag) (value : ℕ) (s : BusState) → (rx_by f value s).role ≡ s.role
unfolding rx_by header_byte take_sof put_header_byte enter_data store_data next_data
    ibus_parse_std_header reset_to_idle mark_result
role-rx_by rx_sof value s = ground arith
role-rx_by rx_header value s = ground arith
role-rx_by rx_data value s = ground arith
role-rx_by rx_eof value s = ground (arith, role-accept_frame s)

feed-feed_pure : (vs : List ℕ) (s : BusState) → s.role ≡ device → feed vs s ≡ feed_pure vs s
unfolding feed feed_pure
feed-feed_pure [] s r = refl
feed-feed_pure (v ∷ vs) s r =
    let kept : (rx_pure v s).role ≡ device = unfold rx_pure in role-rx_by s.rx_flag v s ∙ r in
    ap (feed vs) (rx_byte-rx_pure v s r) ∙ feed-feed_pure vs (rx_pure v s) kept

-- In whatever world a device of no hooks in its receiving state finds a byte on the bus, a step of
-- `ibus_exchange` changes its own state alone, and that to `rx_byte` of the byte and its state.
pub ibus_exchange-rx_byte :
    {U : Type 0} (w : World U) (value : ℕ)
    → w.state.role ≡ device
    → w.state.exchange_flag ≡ rx
    → read_bus w ≡ some value
    → ibus_exchange no_hooks w ≡ with_state w (rx_byte value w.state)
unfolding ibus_exchange exchange_dispatch
ibus_exchange-rx_byte w value r f h =
    rw (rx_byte-rx_pure value w.state r) (simp f (rx_byte_device w value r h))

-- A device that waits for a frame and finds on the bus, one byte in each receiving step, a command
-- of `n` blocks in a valid header to its address, with room for it, has after the last byte the
-- data of the frame at the start of its command buffer, in order, and the rest of the buffer as
-- before; and it is about to answer.
pub receive_command :
    (s : BusState) (raw n v : ℕ) (vs blocks : List ℕ)
    → s.role ≡ device
    → s.rx_flag ≡ rx_sof
    → is_null s.msg_header ≡ false
    → Announces s raw n
    → s.msg_cmd_buf_u16 ≡ some blocks
    → suc (length vs) ≡ n * 2
    → n ≤ cmd_frame_blocks s
    → IsBlocks blocks
    → All (λ b. b < 256) (v ∷ vs)
    → s.msg_cmd_buf_blocks ≤ length blocks
    → n ≤ s.msg_cmd_buf_blocks
    → let s' =
        feed (arp_bus_sof ∷ byte_low raw ∷ byte_high raw ∷ (v ∷ vs) ++ (arp_bus_eof ∷ [])) s in
      (s'.exchange_flag ≡ tx)
      × (s'.tx_flag ≡ tx_sof)
      × (s'.msg_flag ≡ arp_flag_cmd_resp)
      × (s'.exchange_busy ≡ true)
      × ((j : ℕ)
          → MsgBlock.read_byte s'.msg_cmd_buf_u16 s.msg_cmd_buf_blocks j ≡ (
              if ltb j (n * 2)
              then some (get_or (v ∷ vs) j 0)
              else MsgBlock.read_byte (some blocks) s.msg_cmd_buf_blocks j))
receive_command s raw n v vs blocks r f h a b len room hb hv hc fit =
    let frame : List ℕ =
      arp_bus_sof ∷ byte_low raw ∷ byte_high raw ∷ (v ∷ vs) ++ (arp_bus_eof ∷ []) in
    rw (feed-feed_pure frame s r) (receive_pure s raw n v vs blocks r f h a b len room hb hv hc fit)
