-- ===== src/Exchange/Command.antt =====
-- A whole command frame in a device of i_sys_algo.cpp, without the bus.
use arachnopod.Base.{ℕ, suc, ◌+◌, ◌*◌, ◌≤◌, ◌<◌, true, false}
use arachnopod.Base.{Option, some, List, [], ◌∷◌, ◌++◌, ◌≡◌, refl, ◌∙◌, ap, arith}
use arachnopod.Base.{◌-◌, ◌&&◌, ltb, leb, if◌then◌else◌, length, get_or, All}
use arachnopod.MsgBlock
use arachnopod.MsgBlock.Bytes.{write_bytes, read_byte-write_bytes}
use arachnopod.MsgBlock.Values.{IsBlocks}
use arachnopod.MsgHeader
use arachnopod.MsgHeader.{is_null, byte_low, byte_high}
use arachnopod.MsgHeader.Storage.{write_byte_pair}
use mathlib.Core.Option
use arachnopod.Tables.Config.{arp_bus_sof, arp_bus_eof, arp_flag_cmd_req, arp_flag_cmd_resp}
use arachnopod.Exchange.Flags.{device, tx, rx_sof, rx_data, tx_sof}
use arachnopod.Exchange.State.{BusState, expected_bytes, com_capacity_bytes, cmd_frame_blocks}
use arachnopod.Exchange.Frame.{ibus_parse_std_header, merge_nonzero_cmd_fields}
use arachnopod.Exchange.Rx.{take_sof, put_header_byte, enter_data, accept_frame, answer_with}
use arachnopod.Exchange.Reception.{
  rx_pure, feed_pure, IsTaking, after_data, feed_data, feed_pure-append,
}

-- The header `raw` as it was received, in the state in which the data follows.
after_header : BusState → ℕ → ℕ → BusState
after_header s raw n = record s {
  msg_header =
      (MsgHeader.write_byte (MsgHeader.write_byte s.msg_header 0 (byte_low raw)).1 1
        (byte_high raw)).1;
  rx_flag = rx_data;
  exchange_sub_clock = 0;
  exchange_wait_clock = 0;
  exchange_busy = true;
  msg_adr_flag = true;
  msg_flag = arp_flag_cmd_req;
  msg_n_blocks = n;
}

-- A header that announces a command of `n` blocks to the system of `s`.
pub record Announces (s : BusState) (raw n : ℕ) : Type 0 where
  pub word : raw < 65536
  pub header : MsgHeader.Value
  pub parses : MsgHeader.parse raw ≡ some header
  pub mine : header.addr ≡ s.self_addr
  pub command : header.flag ≡ arp_flag_cmd_req
  pub blocks : header.nblocks ≡ n
  pub some_data : 0 < n

feed_header :
    (s : BusState) (raw n : ℕ)
    → s.role ≡ device
    → s.rx_flag ≡ rx_sof
    → is_null s.msg_header ≡ false
    → Announces s raw n
    → feed_pure (arp_bus_sof ∷ byte_low raw ∷ byte_high raw ∷ []) s ≡ after_header s raw n
unfolding feed_pure rx_pure take_sof put_header_byte enter_data ibus_parse_std_header after_header
    MsgHeader.parse_storage Option.bind
feed_header s raw n r f h a =
    let got = write_byte_pair s.msg_header raw a.word h in simp (f, r, got, a.parses) (ground arith)

rx_pure-eof :
    (s : BusState) (buf : Option (List ℕ)) (n : ℕ)
    → expected_bytes s ≡ n
    → s.msg_adr_flag ≡ true
    → s.msg_flag ≡ arp_flag_cmd_req
    → rx_pure arp_bus_eof (after_data s buf n)
      ≡ answer_with arp_flag_cmd_resp (merge_nonzero_cmd_fields (after_data s buf n))
unfolding rx_pure accept_frame after_data expected_bytes merge_nonzero_cmd_fields
rx_pure-eof s buf n e a f = ground arith

parse-nblocks : (raw : ℕ) (h : MsgHeader.Value) → MsgHeader.parse raw ≡ some h → h.nblocks < 32
unfolding MsgHeader.parse
parse-nblocks raw h e = ground arith

after_header-IsTaking :
    (s : BusState) (raw n : ℕ) (blocks : List ℕ)
    → s.msg_cmd_buf_u16 ≡ some blocks
    → IsTaking (after_header s raw n) blocks 0
unfolding after_header
after_header-IsTaking s raw n blocks b = record {
  to_me = refl;
  is_command = refl;
  in_data = refl;
  at = refl;
  buffer = b;
}

feed_command :
    (s : BusState) (raw n v : ℕ) (vs blocks : List ℕ)
    → s.role ≡ device
    → s.rx_flag ≡ rx_sof
    → is_null s.msg_header ≡ false
    → Announces s raw n
    → s.msg_cmd_buf_u16 ≡ some blocks
    → suc (length vs) ≡ n * 2
    → n ≤ cmd_frame_blocks s
    → feed_pure (arp_bus_sof ∷ byte_low raw ∷ byte_high raw ∷ (v ∷ vs) ++ (arp_bus_eof ∷ [])) s
      ≡ answer_with arp_flag_cmd_resp (
          merge_nonzero_cmd_fields (
            after_data
              (after_header s raw n)
              (write_bytes s.msg_cmd_buf_blocks 0 (v ∷ vs) (some blocks))
              (n * 2)))
unfolding feed_pure after_header
feed_command s raw n v vs blocks r f h a b len room =
    let start = arp_bus_sof ∷ byte_low raw ∷ byte_high raw ∷ [] in
    let end : List ℕ = arp_bus_eof ∷ [] in
    let headed = after_header s raw n in
    feed_pure-append start ((v ∷ vs) ++ end) s
    ∙ ap (feed_pure ((v ∷ vs) ++ end)) (feed_header s raw n r f h a)
    ∙ feed_pure-append (v ∷ vs) end headed
    ∙ ap (feed_pure end) (
        feed_data v vs headed blocks 0 (n * 2) (after_header-IsTaking s raw n blocks b)
          (omega (arith, len)) (unfold after_header expected_bytes in refl)
          (unfold after_header com_capacity_bytes in omega (arith, room))
          (omega (arith, parse-nblocks raw a.header a.parses, a.blocks)))
    ∙ rx_pure-eof headed (write_bytes s.msg_cmd_buf_blocks 0 (v ∷ vs) (some blocks)) (n * 2)
        (unfold after_header expected_bytes in refl) (unfold after_header in refl)
        (unfold after_header in refl)

stored_at :
    (v : ℕ) (vs : List ℕ) (j m : ℕ)
    → suc (length vs) ≡ m
    → (old : Option ℕ)
    → (if leb 0 j && ltb j (0 + suc (length vs)) then some (get_or (v ∷ vs) (j - 0) 0) else old)
      ≡ (if ltb j m then some (get_or (v ∷ vs) j 0) else old)
stored_at v vs j m e old = ground arith

answered :
    (t : BusState)
    → let s' = answer_with arp_flag_cmd_resp (merge_nonzero_cmd_fields t) in
      (s'.exchange_flag ≡ tx)
      × (s'.tx_flag ≡ tx_sof)
      × (s'.msg_flag ≡ arp_flag_cmd_resp)
      × (s'.exchange_busy ≡ t.exchange_busy)
      × (s'.msg_cmd_buf_u16 ≡ t.msg_cmd_buf_u16)
unfolding answer_with merge_nonzero_cmd_fields
answered t = ground arith

pub receive_pure :
    (s : BusState) (raw n v : ℕ) (vs blocks : List ℕ)
    → s.role ≡ device
    → s.rx_flag ≡ rx_sof
    → is_null s.msg_header ≡ false
    → Announces s raw n
    → s.msg_cmd_buf_u16 ≡ some blocks
    → suc (length vs) ≡ n * 2
    → n ≤ cmd_frame_blocks s
    → IsBlocks blocks
    → All (λ b. b < 256) (v ∷ vs)
    → s.msg_cmd_buf_blocks ≤ length blocks
    → n ≤ s.msg_cmd_buf_blocks
    → let s' =
        feed_pure (arp_bus_sof ∷ byte_low raw ∷ byte_high raw ∷ (v ∷ vs) ++ (arp_bus_eof ∷ [])) s in
      (s'.exchange_flag ≡ tx)
      × (s'.tx_flag ≡ tx_sof)
      × (s'.msg_flag ≡ arp_flag_cmd_resp)
      × (s'.exchange_busy ≡ true)
      × ((j : ℕ)
          → MsgBlock.read_byte s'.msg_cmd_buf_u16 s.msg_cmd_buf_blocks j ≡ (
              if ltb j (n * 2)
              then some (get_or (v ∷ vs) j 0)
              else MsgBlock.read_byte (some blocks) s.msg_cmd_buf_blocks j))
unfolding after_data after_header
receive_pure s raw n v vs blocks r f h a b len room hb hv hc fit =
    let stored = write_bytes s.msg_cmd_buf_blocks 0 (v ∷ vs) (some blocks) in
    let last = answered (after_data (after_header s raw n) stored (n * 2)) in
    rw (feed_command s raw n v vs blocks r f h a b len room) (
      last.0,
      last.1,
      last.2,
      last.3,
      λ j. rw last.4 (
          read_byte-write_bytes (v ∷ vs) blocks s.msg_cmd_buf_blocks 0 j hv hb hc
            (omega (arith, len))
          ∙ stored_at v vs j (n * 2) len (MsgBlock.read_byte (some blocks) s.msg_cmd_buf_blocks j)),
    )
