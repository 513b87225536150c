-- ===== src/Exchange/Transmit.antt =====
-- What a sending system of i_sys_algo.cpp puts on the bus.
use arachnopod.Base.{ℕ, zero, suc, ◌+◌, ◌*◌, ◌<◌, false, List, [], ◌∷◌, ◌++◌}
use arachnopod.Base.{◌≡◌, refl, ap, arith}
use arachnopod.MsgHeader.{is_null, byte_low, byte_high}
use arachnopod.MockBus.{mock_bus_init, mock_bus_write_u8}
use arachnopod.Tables.Config.{arp_bus_sof, arp_bus_eof}
use arachnopod.Exchange.Flags.{rx, tx, rx_sof, TxFlag, tx_sof, tx_header, tx_data, tx_eof}
use arachnopod.Exchange.State.{BusState, World, with_state, write_bus, calc_nblocks}
use arachnopod.Exchange.Tx.{leave_tx}
use arachnopod.Exchange.Run.{no_hooks, ibus_exchange, ibus_tx_exchange, exchange_dispatch}
use arachnopod.Exchange.Transmission.{
  tx_by, tx_pure, send_pure, tx_dispatch-byte, frame_data, frame_header, header_done,
  send_frame_pure,
}

-- A system on a bus without bytes.
abbrev pub silent_world : BusState → World Unit
silent_world s = record { state = s; bus = mock_bus_init; user = tt }

-- The byte that a sending step of a system without hooks leaves on the bus for the next tick, and
-- the state after the step.
unfoldable pub tx_byte : BusState → ℕ × BusState
tx_byte s = let w = ibus_tx_exchange no_hooks (silent_world s) in (w.bus.pending_data, w.state)

-- The bytes of `k` sending steps, and the state after them.
unfoldable pub send : ℕ → BusState → List ℕ × BusState
send zero s = ([], s)
send (suc k) s = let (v, s') = tx_byte s in let (vs, t) = send k s' in (v ∷ vs, t)

-- The two bytes of the header are sent at the sub clocks 0 and 1.
IsPaced : BusState → Type 0
IsPaced s = s.tx_flag ≡ tx_header → s.exchange_sub_clock < 2

tx_exchange-tx_pure :
    {U : Type 0} (w : World U)
    → IsPaced w.state
    → ibus_tx_exchange no_hooks w ≡ with_state (write_bus (tx_pure w.state).0 w) (tx_pure w.state).1
unfolding ibus_tx_exchange tx_pure IsPaced
tx_exchange-tx_pure w h = tx_dispatch-byte w.state.tx_flag w h

tx_byte-tx_pure : (s : BusState) → IsPaced s → tx_byte s ≡ tx_pure s
unfolding tx_byte write_bus mock_bus_write_u8
tx_byte-tx_pure s h =
    ap (λ w. (w.bus.pending_data, w.state)) (tx_exchange-tx_pure (silent_world s) h)

IsPaced-tx_by : (f : TxFlag) (s : BusState) → s.tx_flag ≡ f → IsPaced (tx_by f s).1
unfolding tx_by IsPaced leave_tx
IsPaced-tx_by tx_sof s e = ground arith
IsPaced-tx_by tx_header s e = ground arith
IsPaced-tx_by tx_data s e = ground arith
IsPaced-tx_by tx_eof s e = ground arith

send-send_pure : (k : ℕ) (s : BusState) → IsPaced s → send k s ≡ send_pure k s
unfolding send send_pure
send-send_pure zero s h = refl
send-send_pure (suc k) s h =
    let kept : IsPaced (tx_pure s).1 = unfold tx_pure in IsPaced-tx_by s.tx_flag s refl in
    rw (tx_byte-tx_pure s h, send-send_pure k (tx_pure s).1 kept)

-- In whatever world a system without hooks sends, with the sub clock below 2 in its header, a step
-- of `ibus_exchange` writes the byte of `tx_byte` to the bus, and changes its own state to that of
-- `tx_byte`.
pub ibus_exchange-tx_byte :
    {U : Type 0} (w : World U)
    → w.state.exchange_flag ≡ tx
    → (w.state.tx_flag ≡ tx_header → w.state.exchange_sub_clock < 2)
    → ibus_exchange no_hooks w ≡ with_state (write_bus (tx_byte w.state).0 w) (tx_byte w.state).1
unfolding ibus_exchange exchange_dispatch IsPaced
ibus_exchange-tx_byte w f h = rw (tx_byte-tx_pure w.state h) (simp f (tx_exchange-tx_pure w h))

-- A system that starts to send, with a header to write, puts on the bus in exactly 2 n + 4 sending
-- steps, for the number n of blocks that it counts: the start byte, the header, low byte first, the
-- bytes of `data_byte` and the end byte; and then it receives again.
pub send_bytes :
    (s : BusState) (n : ℕ)
    → s.tx_flag ≡ tx_sof
    → is_null s.msg_header ≡ false
    → calc_nblocks s ≡ n
    → ((send (n * 2 + 4) s).0
        ≡ arp_bus_sof
          ∷ byte_low (frame_header s)
          ∷ byte_high (frame_header s)
          ∷ (frame_data (header_done s) 0 (n * 2) ++ (arp_bus_eof ∷ [])))
      × ((send (n * 2 + 4) s).1.exchange_flag ≡ rx)
      × ((send (n * 2 + 4) s).1.rx_flag ≡ rx_sof)
unfolding IsPaced
send_bytes s n f h c =
    let paced : IsPaced s = λ e. ground arith in
    rw (send-send_pure (n * 2 + 4) s paced) (send_frame_pure s n f h c)
