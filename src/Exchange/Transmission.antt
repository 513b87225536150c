-- ===== src/Exchange/Transmission.antt =====
-- The transmission of a whole frame, one byte a step, by i_sys_algo.cpp.
use arachnopod.Base.{ℕ, zero, suc, ◌+◌, ◌*◌, ◌^◌, ◌<◌, true, false}
use arachnopod.Base.{List, [], ◌∷◌, ◌++◌, ◌≡◌, refl, arith}
use arachnopod.Base.{u8, u16, ltb, leb, ◌==◌, if◌then◌else◌}
use arachnopod.MsgHeader
use arachnopod.MsgHeader.{is_null, byte_low, byte_high, make}
use arachnopod.MsgHeader.Fields.{parse-make}
use arachnopod.MsgHeader.Storage.{read_byte-write_raw}
use arachnopod.Tables.Config.{arp_bus_sof, arp_bus_eof}
use arachnopod.Exchange.Flags.{rx, rx_sof, TxFlag, tx_sof, tx_header, tx_data, tx_eof}
use arachnopod.Exchange.State.{
  BusState, World, with_state, write_bus, calc_nblocks, expected_bytes, com_capacity_bytes,
  cmd_frame_blocks, prm_frame_blocks, par_capacity_bytes,
}
use arachnopod.Exchange.Frame.{ibus_gen_std_header}
use arachnopod.Exchange.Rx.{is_master}
use arachnopod.Exchange.Tx.{
  value_or_zero, itx_sof, itx_header, itx_data, itx_eof, data_byte, leave_tx,
}
use arachnopod.Exchange.Run.{no_hooks, tx_dispatch}

-- The byte that a step in a sending state puts on the bus, and the state after it.
unfoldable pub header_sent : ℕ → BusState → ℕ
header_sent i s = value_or_zero (MsgHeader.read_byte s.msg_header i)

unfoldable pub tx_by : TxFlag → BusState → ℕ × BusState
tx_by tx_sof s = (
  arp_bus_sof,
  record s {
    tx_flag = tx_header;
    exchange_sub_clock = 0;
    exchange_wait_clock = 0;
    exchange_busy = if is_master s.role then true else s.exchange_busy;
  },
)
tx_by tx_header s =
    let made = ibus_gen_std_header s in
    if s.exchange_sub_clock == 0
    then (header_sent 0 made, record made { exchange_sub_clock = 1; exchange_wait_clock = 0 })
    else (
      header_sent 1 s,
      record s {
        tx_flag = if ltb 0 s.msg_n_blocks then tx_data else tx_eof;
        exchange_sub_clock = 0;
        exchange_wait_clock = 0;
      },
    )
tx_by tx_data s =
    let clock = u16 (s.exchange_sub_clock + 1) in
    (
      data_byte s,
      record s {
        exchange_sub_clock = clock;
        exchange_wait_clock = 0;
        tx_flag = if leb (expected_bytes s) clock then tx_eof else s.tx_flag;
      },
    )
tx_by tx_eof s = (arp_bus_eof, leave_tx s)

unfoldable pub tx_pure : BusState → ℕ × BusState
unfolding tx_by header_sent
tx_pure s = tx_by s.tx_flag s

writer_tick-gen : (s : BusState) → (ibus_gen_std_header s).writer_tick ≡ s.writer_tick
unfolding ibus_gen_std_header
writer_tick-gen s = ground arith

pub tx_dispatch-byte :
    {U : Type 0} (f : TxFlag) (w : World U)
    → (f ≡ tx_header → w.state.exchange_sub_clock < 2)
    → tx_dispatch f no_hooks w ≡ with_state (write_bus (tx_by f w.state).0 w) (tx_by f w.state).1
unfolding tx_dispatch itx_sof itx_header itx_data itx_eof tx_by header_sent write_bus
tx_dispatch-byte tx_sof w h = refl
tx_dispatch-byte tx_data w h = refl
tx_dispatch-byte tx_eof w h = refl
tx_dispatch-byte tx_header w h = ground (arith, h refl, writer_tick-gen w.state)

-- The bytes of `k` sending steps, and the state after them.
unfoldable pub send_pure : ℕ → BusState → List ℕ × BusState
send_pure zero s = ([], s)
send_pure (suc k) s = let (v, s') = tx_pure s in let (vs, t) = send_pure k s' in (v ∷ vs, t)

-- The data bytes of a frame from byte `i` on: those of the buffer that the flag selects.
unfoldable pub frame_data : BusState → ℕ → ℕ → List ℕ
frame_data s i zero = []
frame_data s i (suc k) = data_byte (record s { exchange_sub_clock = i }) ∷ frame_data s (i + 1) k

-- The state in which the data of a frame is sent, at byte `i`.
in_data : BusState → ℕ → BusState
in_data s i = record s {
  tx_flag = if leb (expected_bytes s) i then tx_eof else tx_data;
  exchange_sub_clock = i;
  exchange_wait_clock = 0;
}

data_byte-in_data :
    (s : BusState) (i : ℕ)
    → data_byte (in_data s i) ≡ data_byte (record s { exchange_sub_clock = i })
unfolding data_byte in_data com_capacity_bytes par_capacity_bytes
data_byte-in_data s i = refl

tx_pure-in_data :
    (s : BusState) (i : ℕ)
    → i < expected_bytes s
    → expected_bytes s < 2 ^ 16
    → tx_pure (in_data s i) ≡ (data_byte (record s { exchange_sub_clock = i }), in_data s (i + 1))
unfolding tx_pure in_data expected_bytes
tx_pure-in_data s i lt h = ground (arith, data_byte-in_data s i)

send_data :
    (k i : ℕ) (s : BusState)
    → i + k ≡ expected_bytes s
    → expected_bytes s < 2 ^ 16
    → send_pure k (in_data s i) ≡ (frame_data s i k, in_data s (expected_bytes s))
unfolding send_pure frame_data
send_data zero i s e h = let last : i ≡ expected_bytes s = omega arith in rw last
send_data (suc k) i s e h =
    rw (tx_pure-in_data s i (omega arith) h, send_data k (i + 1) s (omega arith) h)

-- The header that a sending system makes.
abbrev pub frame_header : BusState → ℕ
frame_header s = make s.target_addr s.msg_flag (u8 s.writer_tick) (calc_nblocks s)

-- The state after the first three bytes.
unfoldable pub header_done : BusState → BusState
header_done s = record s {
  exchange_busy = if is_master s.role then true else s.exchange_busy;
  msg_n_blocks = calc_nblocks s;
  msg_header = MsgHeader.write_raw s.msg_header (frame_header s);
}

header_bytes :
    (s : BusState)
    → is_null s.msg_header ≡ false
    → (value_or_zero (MsgHeader.read_byte (header_done s).msg_header 0) ≡ byte_low (frame_header s))
      × (value_or_zero (MsgHeader.read_byte (header_done s).msg_header 1)
          ≡ byte_high (frame_header s))
unfolding header_done
header_bytes s h =
    let small = (parse-make s.target_addr s.msg_flag (u8 s.writer_tick) (calc_nblocks s)).1 in
    let (low, high) = read_byte-write_raw s.msg_header (frame_header s) small h in (rw low, rw high)

send_header :
    (s : BusState)
    → s.tx_flag ≡ tx_sof
    → is_null s.msg_header ≡ false
    → send_pure 3 s ≡ (
      arp_bus_sof ∷ byte_low (frame_header s) ∷ byte_high (frame_header s) ∷ [],
      in_data (header_done s) 0,
    )
unfolding send_pure tx_pure header_done in_data ibus_gen_std_header MsgHeader.write_storage
    calc_nblocks expected_bytes cmd_frame_blocks prm_frame_blocks
send_header s f h = simp (f, h) (ground (arith, header_bytes s h))

send_add :
    (a b m : ℕ) (s : BusState)
    → a + b ≡ m
    → send_pure m s
      ≡ ((send_pure a s).0 ++ (send_pure b (send_pure a s).1).0, (send_pure b (send_pure a s).1).1)
unfolding send_pure
send_add zero b m s e = let last : m ≡ b = omega arith in rw last
send_add (suc a) b zero s e = absurd (omega arith)
send_add (suc a) b (suc m) s e = rw (send_add a b m (tx_pure s).1 (omega arith))

send_last :
    (s : BusState) (n : ℕ)
    → n ≡ expected_bytes s
    → send_pure 1 (in_data s n) ≡ (arp_bus_eof ∷ [], leave_tx (in_data s n))
unfolding send_pure tx_pure in_data expected_bytes
send_last s n e = ground arith

leave_tx-rx : (s : BusState) → ((leave_tx s).exchange_flag ≡ rx) × ((leave_tx s).rx_flag ≡ rx_sof)
unfolding leave_tx
leave_tx-rx s = ground arith

expected-header_done :
    (s : BusState) (n : ℕ)
    → calc_nblocks s ≡ n
    → (expected_bytes (header_done s) ≡ n * 2) × (expected_bytes (header_done s) < 2 ^ 16)
unfolding expected_bytes header_done calc_nblocks
expected-header_done s n c = ground arith

-- A system that starts to send_pure, with a header to write, puts one frame on the bus in exactly
-- 2 n + 4 steps for n data blocks: the start byte, the header, low byte first, the data and the
-- end byte; and then it receives again.
pub send_frame_pure :
    (s : BusState) (n : ℕ)
    → s.tx_flag ≡ tx_sof
    → is_null s.msg_header ≡ false
    → calc_nblocks s ≡ n
    → ((send_pure (n * 2 + 4) s).0
        ≡ arp_bus_sof
          ∷ byte_low (frame_header s)
          ∷ byte_high (frame_header s)
          ∷ (frame_data (header_done s) 0 (n * 2) ++ (arp_bus_eof ∷ [])))
      × ((send_pure (n * 2 + 4) s).1.exchange_flag ≡ rx)
      × ((send_pure (n * 2 + 4) s).1.rx_flag ≡ rx_sof)
send_frame_pure s n f h c =
    let done = header_done s in
    let (len, small) = expected-header_done s n c in
    rw
      (
        send_add 3 (n * 2 + 1) (n * 2 + 4) s (omega arith),
        send_header s f h,
        send_add (n * 2) 1 (n * 2 + 1) (in_data done 0) refl,
        send_data (n * 2) 0 done (omega arith) small,
        len,
        send_last done (n * 2) (omega arith),
      )
      (refl, (leave_tx-rx (in_data done (n * 2))).0, (leave_tx-rx (in_data done (n * 2))).1)
