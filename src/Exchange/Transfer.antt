-- ===== src/Exchange/Transfer.antt =====
-- A command frame from the sending to the receiving side of i_sys_algo.cpp.
use arachnopod.Base.{ℕ, zero, suc, ◌+◌, ◌*◌, ◌≤◌, ◌<◌, true, false}
use arachnopod.Base.{some, List, [], ◌∷◌, ◌++◌, ◌≡◌, ◌∙◌, arith}
use arachnopod.Base.{u8, ltb, if◌then◌else◌, length, get_or, All}
use arachnopod.MsgBlock
use arachnopod.MsgBlock.Values.{IsBlocks}
use arachnopod.MsgHeader.{is_null, byte_low, byte_high}
use arachnopod.MsgHeader.Fields.{parse-make}
use arachnopod.Tables.Config.{arp_bus_sof, arp_bus_eof, arp_flag_cmd_req, arp_flag_cmd_resp}
use arachnopod.Exchange.Flags.{device, tx, rx_sof, tx_sof}
use arachnopod.Exchange.State.{
  BusState, read_buffer_byte, calc_nblocks, cmd_frame_blocks, com_capacity_bytes,
}
use arachnopod.Exchange.Tx.{data_byte}
use arachnopod.Exchange.Transmission.{frame_data, frame_header, header_done}
use arachnopod.Exchange.Transmit.{send, send_bytes}
use arachnopod.Exchange.Sent.{length-frame_data, frame_data-get_or}
use arachnopod.Exchange.Command.{Announces}
use arachnopod.Exchange.Receive.{feed, receive_command}

-- A system that starts to send a command of `n` blocks, which it has at the start of `blocks`.
pub record CanSend (m : BusState) (n : ℕ) (blocks : List ℕ) : Type 0 where
  pub starts : m.tx_flag ≡ tx_sof
  pub header : is_null m.msg_header ≡ false
  pub command : m.msg_flag ≡ arp_flag_cmd_req
  pub buffer : m.msg_cmd_buf_u16 ≡ some blocks
  pub frame : cmd_frame_blocks m ≡ n
  pub some_data : 0 < n
  pub small : n < 32
  pub held : n ≤ m.msg_cmd_buf_blocks
  pub address : m.target_addr < 32

-- A device that waits for a frame and has room for a command of `n` blocks in `blocks`.
pub record CanReceive (d : BusState) (n : ℕ) (blocks : List ℕ) : Type 0 where
  pub is_device : d.role ≡ device
  pub waits : d.rx_flag ≡ rx_sof
  pub header : is_null d.msg_header ≡ false
  pub buffer : d.msg_cmd_buf_u16 ≡ some blocks
  pub words : IsBlocks blocks
  pub counted : d.msg_cmd_buf_blocks ≤ length blocks
  pub frame : n ≤ cmd_frame_blocks d
  pub room : n ≤ d.msg_cmd_buf_blocks

frame_data-lt :
    (s : BusState) (i k : ℕ)
    → ((c : ℕ) → data_byte (record s { exchange_sub_clock = c }) < 256)
    → All (λ b. b < 256) (frame_data s i k)
unfolding frame_data
frame_data-lt s i zero h = tt
frame_data-lt s i (suc k) h = (h i, frame_data-lt s (i + 1) k h)

-- The data bytes of a command are those of its buffer.
data_byte-command :
    (m : BusState) (n : ℕ) (blocks : List ℕ) (c : ℕ)
    → CanSend m n blocks
    → let b = data_byte (record (header_done m) { exchange_sub_clock = c }) in
      (b < 256) × (c < n * 2 → MsgBlock.read_byte (some blocks) m.msg_cmd_buf_blocks c ≡ some b)
unfolding data_byte header_done read_buffer_byte com_capacity_bytes cmd_frame_blocks
    MsgBlock.read_byte
data_byte-command m n blocks c s = ground arith

calc_command : (m : BusState) (n : ℕ) (blocks : List ℕ) → CanSend m n blocks → calc_nblocks m ≡ n
unfolding calc_nblocks
calc_command m n blocks s = ground (arith, s.frame, s.command)

announces :
    (m d : BusState) (n : ℕ) (blocks : List ℕ)
    → CanSend m n blocks
    → d.self_addr ≡ m.target_addr
    → Announces d (frame_header m) n
announces m d n blocks s a =
    let built = parse-make m.target_addr m.msg_flag (u8 m.writer_tick) (calc_nblocks m) in
    record {
      word = built.1;
      header = _;
      parses = built.0;
      mine = omega (arith, s.address);
      command = omega (arith, s.command);
      blocks = ground (arith, calc_command m n blocks s);
      some_data = s.some_data;
    }

received :
    (d : BusState) (raw n : ℕ) (bytes bd : List ℕ)
    → Announces d raw n
    → CanReceive d n bd
    → length bytes ≡ n * 2
    → All (λ b. b < 256) bytes
    → let d' = feed (arp_bus_sof ∷ byte_low raw ∷ byte_high raw ∷ bytes ++ (arp_bus_eof ∷ [])) d in
      (d'.exchange_flag ≡ tx)
      × (d'.tx_flag ≡ tx_sof)
      × (d'.msg_flag ≡ arp_flag_cmd_resp)
      × (d'.exchange_busy ≡ true)
      × ((j : ℕ)
          → MsgBlock.read_byte d'.msg_cmd_buf_u16 d.msg_cmd_buf_blocks j ≡ (
              if ltb j (n * 2)
              then some (get_or bytes j 0)
              else MsgBlock.read_byte (some bd) d.msg_cmd_buf_blocks j))
received d raw n [] bd a r len h = absurd (omega (arith, len, a.some_data))
received d raw n (v ∷ vs) bd a r len h =
    receive_command d raw n v vs bd r.is_device r.waits r.header a r.buffer len r.frame r.words h
      r.counted r.room

-- A command of n blocks (0 < n < 32), sent by a system that starts to send and has it in its buffer,
-- is what the device of that address receives, if it waits for a frame and has room: the device, fed with the bytes of
-- the sender's 2 n + 4 steps, has the first n blocks of the sender's buffer at the start of its
-- own and the rest of its buffer as before, and is about to send the answer.
pub command_transfer :
    (m d : BusState) (n : ℕ) (bm bd : List ℕ)
    → CanSend m n bm
    → CanReceive d n bd
    → d.self_addr ≡ m.target_addr
    → let d' = feed (send (n * 2 + 4) m).0 d in
      (d'.exchange_flag ≡ tx)
      × (d'.tx_flag ≡ tx_sof)
      × (d'.msg_flag ≡ arp_flag_cmd_resp)
      × (d'.exchange_busy ≡ true)
      × ((j : ℕ)
          → MsgBlock.read_byte d'.msg_cmd_buf_u16 d.msg_cmd_buf_blocks j ≡ (
              if ltb j (n * 2)
              then MsgBlock.read_byte (some bm) m.msg_cmd_buf_blocks j
              else MsgBlock.read_byte (some bd) d.msg_cmd_buf_blocks j))
command_transfer m d n bm bd s r a =
    let bounded = frame_data-lt (header_done m) 0 (n * 2) (λ c. (data_byte-command m n bm c s).0) in
    let got =
      received d (frame_header m) n (frame_data (header_done m) 0 (n * 2)) bd
        (announces m d n bm s a) r (length-frame_data (header_done m) 0 (n * 2)) bounded in
    rw (send_bytes m n s.starts s.header (calc_command m n bm s)).0 (
      got.0,
      got.1,
      got.2,
      got.3,
      λ j.
          got.4 j
          ∙ ground
              (arith, frame_data-get_or (header_done m) 0 (n * 2) j, data_byte-command m n bm j s),
    )
