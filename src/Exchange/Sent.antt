-- ===== src/Exchange/Sent.antt =====
-- The frames that i_sys_algo.cpp sends: the header by its fields, and the data by the buffer of the
-- sender.
use arachnopod.Base.{ℕ, zero, suc, ◌+◌, ◌*◌, ◌%◌, ◌≤◌, ◌<◌, false, some}
use arachnopod.Base.{List, [], ◌∷◌, ◌++◌, ◌≡◌, ◌≢◌, ◌⊎◌, refl, ◌∙◌, ap, sym, arith}
use arachnopod.Base.{u8, length, get_or}
use arachnopod.MsgBlock
use arachnopod.MsgHeader.{Value, parse, is_null, byte_low, byte_high, parity_of}
use arachnopod.MsgHeader.Fields.{parse-make}
use arachnopod.Tables.Config.{arp_bus_sof, arp_bus_eof, arp_flag_cmd_req, arp_flag_data_resp}
use arachnopod.Exchange.Flags.{rx, rx_sof, tx_sof}
use arachnopod.Exchange.State.{
  BusState, read_buffer_byte, calc_nblocks, cmd_frame_blocks, prm_frame_blocks, com_capacity_bytes,
  par_capacity_bytes,
}
use arachnopod.Exchange.Tx.{data_byte}
use arachnopod.Exchange.Transmission.{frame_data, frame_header, header_done}
use arachnopod.Exchange.Transmit.{send, send_bytes}

pub length-frame_data : (s : BusState) (i k : ℕ) → length (frame_data s i k) ≡ k
unfolding frame_data
length-frame_data s i zero = refl
length-frame_data s i (suc k) = ap suc (length-frame_data s (i + 1) k)

pub frame_data-get_or :
    (s : BusState) (i k j : ℕ)
    → j < k
    → get_or (frame_data s i k) j 0 ≡ data_byte (record s { exchange_sub_clock = i + j })
unfolding frame_data
frame_data-get_or s i zero j h = absurd (omega arith)
frame_data-get_or s i (suc k) zero h =
    let e : i ≡ i + 0 = omega arith in ap (λ c. data_byte (record s { exchange_sub_clock = c })) e
frame_data-get_or s i (suc k) (suc j) h =
    let e : i + 1 + j ≡ i + suc j = omega arith in
    frame_data-get_or s (i + 1) k j (omega arith)
    ∙ ap (λ c. data_byte (record s { exchange_sub_clock = c })) e

-- The data of a frame: `n` blocks of the commands for a request with commands, `n` blocks of the
-- parameters for an answer with data, and none for the other flags.
abbrev pub Payload : BusState → ℕ → List ℕ → ℕ → Type 0
Payload s n blocks count =
    ((s.msg_flag ≡ arp_flag_cmd_req)
      × (s.msg_cmd_buf_u16 ≡ some blocks)
      × (s.msg_cmd_buf_blocks ≡ count)
      × (cmd_frame_blocks s ≡ n))
    ⊎ (((s.msg_flag ≡ arp_flag_data_resp)
          × (s.msg_prm_buf_u16 ≡ some blocks)
          × (s.msg_prm_buf_blocks ≡ count)
          × (prm_frame_blocks s ≡ n))
        ⊎ ((s.msg_flag ≢ arp_flag_cmd_req) × (s.msg_flag ≢ arp_flag_data_resp) × (n ≡ 0)))

-- A system that starts to send a frame of `n` blocks, at most 31, from its `count` blocks `blocks`.
pub record Sends (s : BusState) (n : ℕ) (blocks : List ℕ) (count : ℕ) : Type 0 where
  pub starts : s.tx_flag ≡ tx_sof
  pub header : is_null s.msg_header ≡ false
  pub payload : Payload s n blocks count
  pub small : n < 32
  pub held : n ≤ count

Sends-calc :
    (s : BusState) (n : ℕ) (blocks : List ℕ) (count : ℕ)
    → Sends s n blocks count
    → calc_nblocks s ≡ n
unfolding calc_nblocks
Sends-calc s n blocks count h = ground (arith, h.payload, h.small)

data_byte-Sends :
    (s : BusState) (n : ℕ) (blocks : List ℕ) (count c : ℕ)
    → Sends s n blocks count
    → c < n * 2
    → MsgBlock.read_byte (some blocks) count c
      ≡ some (data_byte (record (header_done s) { exchange_sub_clock = c }))
unfolding data_byte header_done read_buffer_byte com_capacity_bytes par_capacity_bytes
    cmd_frame_blocks prm_frame_blocks MsgBlock.read_byte
data_byte-Sends s n blocks count c h lt = ground (arith, h.payload, h.held)

-- A system that starts to send a frame of `n` blocks, `n` at most 31, which its buffer has, with a
-- header to write, puts on the bus in exactly
-- 2 n + 4 sending steps: the start byte, a header, low byte first, which parses to the address of
-- the target, the flag of the message, the low digits of the tick and `n`, the 2 n bytes at the
-- start of the buffer that belongs to the flag, and the end byte; and then it receives again.
pub send_frame :
    (s : BusState) (n : ℕ) (blocks : List ℕ) (count : ℕ)
    → Sends s n blocks count
    → let sent = send (n * 2 + 4) s in
      (raw : ℕ) × (bytes : List ℕ) × (sent.0
        ≡ arp_bus_sof ∷ byte_low raw ∷ byte_high raw ∷ (bytes ++ (arp_bus_eof ∷ [])))
      × (raw < 65536)
      × (parse raw
          ≡ some (record {
            parity = parity_of raw;
            addr = s.target_addr % 32;
            flag = s.msg_flag % 4;
            marker = s.writer_tick % 8;
            nblocks = n;
          }))
      × (length bytes ≡ n * 2)
      × ((j : ℕ) → j < n * 2 → MsgBlock.read_byte (some blocks) count j ≡ some (get_or bytes j 0))
      × (sent.1.exchange_flag ≡ rx)
      × (sent.1.rx_flag ≡ rx_sof)
send_frame s n blocks count h =
    let calc = Sends-calc s n blocks count h in
    let (bytes, receives, waits) = send_bytes s n h.starts h.header calc in
    let (parsed, word) = parse-make s.target_addr s.msg_flag (u8 s.writer_tick) (calc_nblocks s) in
    let marker : u8 s.writer_tick % 8 ≡ s.writer_tick % 8 = omega arith in
    let nblocks : calc_nblocks s % 32 ≡ n = omega (arith, calc, h.small) in
    let header_fields : ℕ → ℕ → Value = λ m k. record {
      parity = parity_of (frame_header s);
      addr = s.target_addr % 32;
      flag = s.msg_flag % 4;
      marker = m;
      nblocks = k;
    } in
    let fields : header_fields (u8 s.writer_tick % 8) (calc_nblocks s % 32)
        ≡ header_fields (s.writer_tick % 8) n =
      rw (marker, nblocks) refl in
    (
      frame_header s,
      frame_data (header_done s) 0 (n * 2),
      bytes,
      word,
      parsed ∙ ap some fields,
      length-frame_data (header_done s) 0 (n * 2),
      λ j lt.
          let here : j ≡ 0 + j = omega arith in
          ap (MsgBlock.read_byte (some blocks) count) here
          ∙ data_byte-Sends s n blocks count (0 + j) h (omega arith)
          ∙ ap some (sym (frame_data-get_or (header_done s) 0 (n * 2) j lt)),
      receives,
      waits,
    )
