-- ===== src/Exchange/Examples.antt =====
-- Concrete runs of i_sys_algo.cpp: CS sends a command of one block to LS.
use arachnopod.Base.{ℕ, suc, ◌*◌, ◌+◌, ◌<◌, ◌≤◌, true, none, some, [], ◌∷◌, ◌++◌}
use arachnopod.Base.{popcount, List, inl, length, ◌%◌, ◌≡◌, refl, arith, ltb, get_or, if◌then◌else◌}
use arachnopod.MsgBlock
use arachnopod.MsgHeader.{
  HeaderStorage, byte_low, byte_high, parse, parity_of, parity_ok, calc_parity,
}
use arachnopod.MockBus.{mock_bus_init}
use arachnopod.Tables.Config.{
  arp_bus_sof, arp_bus_eof, arp_flag_cmd_resp, arp_bus_response_timeout_frames, sys_cs, sys_ls,
  arp_addr_cs, arp_addr_ls,
}
use arachnopod.Exchange.Flags.{BusRole, master, device, rx, tx, rx_sof, tx_sof, tx_header}
use arachnopod.Exchange.State.{
  BusState, World, with_state, write_bus, cmd_frame_blocks, clamp_frame_blocks,
}
use arachnopod.Exchange.Frame.{Buffers, ibus_bind_std}
use arachnopod.Exchange.Run.{no_hooks, ibus_exchange}
use arachnopod.Exchange.Timeout.{tick_steps, IsWaiting, IsTimedOut, master_times_out}
use arachnopod.Exchange.Receive.{feed, receive_command}
use arachnopod.Exchange.Transmit.{tx_byte, send, ibus_exchange-tx_byte}
use arachnopod.Exchange.Sent.{Sends, send_frame}
use arachnopod.Exchange.Command.{Announces}
use arachnopod.Exchange.Transfer.{CanSend, CanReceive, command_transfer}

abbrev word_header : HeaderStorage
word_header = record { header_u16 = some 0; header_u8 = none }

-- One block for commands and one for parameters.
abbrev buffers : ℕ → Buffers
buffers command = record {
  msg_cmd_buf_u8 = none;
  msg_cmd_buf_u16 = some (command ∷ []);
  msg_cmd_buf_blocks = 1;
  msg_prm_buf_u8 = none;
  msg_prm_buf_u16 = some (0 ∷ []);
  msg_prm_buf_blocks = 1;
  msg_cmd_u8 = none;
  msg_cmd_u16 = some (0 ∷ []);
  msg_prm_u8 = none;
  msg_prm_u16 = some (0 ∷ []);
  msg_cmd_blocks = 1;
  msg_prm_blocks = 1;
}

abbrev bound : BusRole → ℕ → ℕ → ℕ → ℕ → BusState
bound role system_id self_addr target_addr command =
    ibus_bind_std role system_id self_addr target_addr word_header (buffers command)

abbrev sender : BusState
sender = record (bound master sys_cs arp_addr_cs arp_addr_ls 5377) { exchange_flag = tx }

abbrev receiver : BusState
receiver = bound device sys_ls arp_addr_ls arp_addr_cs 0

sender-CanSend : CanSend sender 1 (5377 ∷ [])
unfolding ibus_bind_std cmd_frame_blocks clamp_frame_blocks
sender-CanSend = record {
  starts = refl;
  header = refl;
  command = refl;
  buffer = refl;
  frame = refl;
  some_data = omega arith;
  small = omega arith;
  held = omega arith;
  address = omega arith;
}

receiver-CanReceive : CanReceive receiver 1 (0 ∷ [])
unfolding ibus_bind_std cmd_frame_blocks clamp_frame_blocks
receiver-CanReceive = record {
  is_device = refl;
  waits = refl;
  header = refl;
  buffer = refl;
  words = (omega arith, tt);
  counted = omega arith;
  frame = omega arith;
  room = omega arith;
}

same_address : receiver.self_addr ≡ sender.target_addr
unfolding ibus_bind_std
same_address = refl

command_transfer_example :
    let d' = feed (send (1 * 2 + 4) sender).0 receiver in
    (d'.exchange_flag ≡ tx)
    × (d'.tx_flag ≡ tx_sof)
    × (d'.msg_flag ≡ arp_flag_cmd_resp)
    × (d'.exchange_busy ≡ true)
    × ((j : ℕ)
        → MsgBlock.read_byte d'.msg_cmd_buf_u16 receiver.msg_cmd_buf_blocks j ≡ (
            if ltb j (1 * 2)
            then MsgBlock.read_byte (some (5377 ∷ [])) sender.msg_cmd_buf_blocks j
            else MsgBlock.read_byte (some (0 ∷ [])) receiver.msg_cmd_buf_blocks j))
command_transfer_example =
    command_transfer sender receiver 1 (5377 ∷ []) (0 ∷ []) sender-CanSend receiver-CanReceive
      same_address

sender-Sends : Sends sender 1 (5377 ∷ []) 1
unfolding ibus_bind_std cmd_frame_blocks clamp_frame_blocks
sender-Sends = record {
  starts = refl;
  header = refl;
  payload = inl (refl, refl, refl, refl);
  small = omega arith;
  held = omega arith;
}

send_frame_example :
    let sent = send (1 * 2 + 4) sender in
    (raw : ℕ) × (bytes : List ℕ) × (sent.0
      ≡ arp_bus_sof ∷ byte_low raw ∷ byte_high raw ∷ (bytes ++ (arp_bus_eof ∷ [])))
    × (raw < 65536)
    × (parse raw
        ≡ some (record {
          parity = parity_of raw;
          addr = sender.target_addr % 32;
          flag = sender.msg_flag % 4;
          marker = sender.writer_tick % 8;
          nblocks = 1;
        }))
    × (length bytes ≡ 1 * 2)
    × ((j : ℕ) → j < 1 * 2 → MsgBlock.read_byte (some (5377 ∷ [])) 1 j ≡ some (get_or bytes j 0))
    × (sent.1.exchange_flag ≡ rx)
    × (sent.1.rx_flag ≡ rx_sof)
send_frame_example = send_frame sender 1 (5377 ∷ []) 1 sender-Sends

-- The header of a command of one block for address 6, with marker 0.
abbrev command_word : ℕ
command_word = 2061

receiver-Announces : Announces receiver command_word 1
unfolding parse parity_ok calc_parity popcount ibus_bind_std
receiver-Announces = record {
  word = omega arith;
  header = record { parity = 1; addr = 6; flag = 0; marker = 0; nblocks = 1 };
  parses = refl;
  mine = refl;
  command = refl;
  blocks = refl;
  some_data = omega arith;
}

receive_command_example :
    let s' =
      feed
        (arp_bus_sof ∷ byte_low command_word ∷ byte_high command_word ∷ (1 ∷ 21 ∷ [])
          ++ (arp_bus_eof ∷ []))
        receiver in
    (s'.exchange_flag ≡ tx)
    × (s'.tx_flag ≡ tx_sof)
    × (s'.msg_flag ≡ arp_flag_cmd_resp)
    × (s'.exchange_busy ≡ true)
    × ((j : ℕ)
        → MsgBlock.read_byte s'.msg_cmd_buf_u16 receiver.msg_cmd_buf_blocks j ≡ (
            if ltb j (1 * 2)
            then some (get_or (1 ∷ 21 ∷ []) j 0)
            else MsgBlock.read_byte (some (0 ∷ [])) receiver.msg_cmd_buf_blocks j))
receive_command_example =
    receive_command receiver command_word 1 1 (21 ∷ []) (0 ∷ []) receiver-CanReceive.is_device
      receiver-CanReceive.waits receiver-CanReceive.header receiver-Announces
      receiver-CanReceive.buffer refl receiver-CanReceive.frame receiver-CanReceive.words
      (omega arith, (omega arith, tt)) receiver-CanReceive.counted receiver-CanReceive.room

abbrev speaking : World Unit
speaking = record { state = sender; bus = mock_bus_init; user = tt }

speaking-flag : speaking.state.tx_flag ≡ tx_header → speaking.state.exchange_sub_clock < 2
unfolding ibus_bind_std
speaking-flag e = omega arith

ibus_exchange-tx_byte_example :
    ibus_exchange no_hooks speaking
    ≡ with_state (write_bus (tx_byte speaking.state).0 speaking) (tx_byte speaking.state).1
ibus_exchange-tx_byte_example = ibus_exchange-tx_byte speaking refl speaking-flag

-- CS after it has sent a frame to a system that does not answer.
abbrev unanswered : World Unit
unanswered = record {
  state = record (bound master sys_cs arp_addr_cs arp_addr_ls 5377) { exchange_busy = true };
  bus = mock_bus_init;
  user = tt;
}

unanswered-IsWaiting : IsWaiting 0 unanswered
unfolding ibus_bind_std mock_bus_init
unanswered-IsWaiting = (refl, refl, refl, refl, refl)

master_times_out_example :
    ((n : ℕ)
      → n ≤ arp_bus_response_timeout_frames
      → IsWaiting n (tick_steps no_hooks 7 n unanswered))
    × IsTimedOut (tick_steps no_hooks 7 (suc arp_bus_response_timeout_frames) unanswered).state
master_times_out_example = master_times_out unanswered 7 unanswered-IsWaiting
