-- ===== src/Exchange/Reception.antt =====
-- The bytes of a frame in a device of i_sys_algo.cpp, without the bus: its state after each, and
-- after the data of a command.
use arachnopod.Base.{ℕ, suc, ◌+◌, ◌^◌, ◌≤◌, ◌<◌, true}
use arachnopod.Base.{Option, some, List, [], ◌∷◌, ◌++◌, ◌≡◌, refl, ap, arith}
use arachnopod.Base.{leb, ◌==◌, if◌then◌else◌, length}
use arachnopod.MsgBlock
use arachnopod.MsgBlock.Bytes.{write_byte-some, write_bytes}
use arachnopod.Tables.Config.{arp_bus_eof, arp_flag_cmd_req}
use arachnopod.Exchange.Flags.{RxFlag, rx_sof, rx_header, rx_data, rx_eof, invalid_eof}
use arachnopod.Exchange.State.{
  BusState, World, with_state, read_bus, mark_result, reset_to_idle, write_buffer_byte,
  expected_bytes, com_capacity_bytes,
}
use arachnopod.Exchange.Frame.{ibus_parse_std_header}
use arachnopod.Exchange.Rx.{
  take_sof, put_header_byte, enter_data, store_data, next_data, accept_frame, irx_sof, irx_header,
  irx_data, irx_eof,
}
use arachnopod.Exchange.Run.{no_hooks, rx_dispatch}

unfoldable pub header_byte : ℕ → BusState → BusState
header_byte value s =
    if s.exchange_sub_clock == 0
    then record (put_header_byte 0 value s) { exchange_sub_clock = 1 }
    else if s.exchange_sub_clock == 1
    then enter_data (ibus_parse_std_header (put_header_byte 1 value s))
    else s

unfoldable pub rx_by : RxFlag → ℕ → BusState → BusState
rx_by rx_sof value s = take_sof value s
rx_by rx_header value s = header_byte value s
rx_by rx_data value s = next_data (store_data value (record s { exchange_wait_clock = 0 }))
rx_by rx_eof value s =
    if value == arp_bus_eof then accept_frame s else reset_to_idle (mark_result invalid_eof s)

-- The state after a step in which a device without hooks reads the byte `value`, without the bus.
unfoldable pub rx_pure : ℕ → BusState → BusState
unfolding rx_by header_byte
rx_pure value s = rx_by s.rx_flag value s

pub rx_dispatch-byte :
    {U : Type 0} (f : RxFlag) (w : World U) (value : ℕ)
    → read_bus w ≡ some value
    → rx_dispatch f no_hooks w ≡ with_state w (rx_by f value w.state)
unfolding rx_dispatch irx_sof irx_header irx_data irx_eof rx_by header_byte
rx_dispatch-byte rx_sof w value h = rw h
rx_dispatch-byte rx_data w value h = rw h
rx_dispatch-byte rx_eof w value h = rw h (ground arith)
rx_dispatch-byte rx_header w value h = ground arith

-- The bytes `values` read in one step each.
unfoldable pub feed_pure : List ℕ → BusState → BusState
feed_pure [] s = s
feed_pure (v ∷ vs) s = feed_pure vs (rx_pure v s)

-- The state of a device that takes the data of a command addressed to it, at byte `i`.
pub record IsTaking (s : BusState) (blocks : List ℕ) (i : ℕ) : Type 0 where
  pub to_me : s.msg_adr_flag ≡ true
  pub is_command : s.msg_flag ≡ arp_flag_cmd_req
  pub in_data : s.rx_flag ≡ rx_data
  pub at : s.exchange_sub_clock ≡ i
  pub buffer : s.msg_cmd_buf_u16 ≡ some blocks

-- The state after byte `i` of the data.
unfoldable pub after_data : BusState → Option (List ℕ) → ℕ → BusState
after_data s buf i = record s {
  exchange_wait_clock = 0;
  msg_cmd_buf_u16 = buf;
  exchange_sub_clock = i;
  rx_flag = if leb (expected_bytes s) i then rx_eof else rx_data;
}

pub rx_pure-data :
    (s : BusState) (blocks : List ℕ) (i v : ℕ)
    → IsTaking s blocks i
    → i < com_capacity_bytes s
    → i + 1 < 2 ^ 16
    → rx_pure v s
      ≡ after_data s (MsgBlock.write_byte (some blocks) s.msg_cmd_buf_blocks i v).1 (i + 1)
unfolding rx_pure next_data store_data write_buffer_byte after_data expected_bytes
    com_capacity_bytes
rx_pure-data s blocks i v t cap small = ground arith

pub after_data-IsTaking :
    (s : BusState) (blocks blocks' : List ℕ) (i : ℕ)
    → IsTaking s blocks i
    → suc i < expected_bytes s
    → IsTaking (after_data s (some blocks') (i + 1)) blocks' (i + 1)
unfolding after_data
after_data-IsTaking s blocks blocks' i t lt = record {
  to_me = t.to_me;
  is_command = t.is_command;
  in_data = ground arith;
  at = refl;
  buffer = refl;
}

pub feed_data :
    (v : ℕ) (vs : List ℕ) (s : BusState) (blocks : List ℕ) (i n : ℕ)
    → IsTaking s blocks i
    → i + suc (length vs) ≡ n
    → expected_bytes s ≡ n
    → n ≤ com_capacity_bytes s
    → n < 2 ^ 16
    → feed_pure (v ∷ vs) s
      ≡ after_data s (write_bytes s.msg_cmd_buf_blocks i (v ∷ vs) (some blocks)) n
unfolding feed_pure after_data expected_bytes write_bytes com_capacity_bytes
feed_data v [] s blocks i n t e x room small =
    let last : i + 1 ≡ n = omega arith in
    rw (rx_pure-data s blocks i v t (omega arith) (omega arith))
      (ap (after_data s (MsgBlock.write_byte (some blocks) s.msg_cmd_buf_blocks i v).1) last)
feed_data v (v' ∷ vs) s blocks i n t e x room small =
    let (blocks', w) = write_byte-some blocks s.msg_cmd_buf_blocks i v in
    rw (rx_pure-data s blocks i v t (omega arith) (omega arith), w)
      (feed_data v' vs (after_data s (some blocks') (i + 1)) blocks' (i + 1) n
        (after_data-IsTaking s blocks blocks' i t (omega arith)) (omega arith) x room small)

pub feed_pure-append :
    (vs us : List ℕ) (s : BusState) → feed_pure (vs ++ us) s ≡ feed_pure us (feed_pure vs s)
unfolding feed_pure
feed_pure-append [] us s = refl
feed_pure-append (v ∷ vs) us s = feed_pure-append vs us (rx_pure v s)
