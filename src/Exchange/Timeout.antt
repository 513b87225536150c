-- ===== src/Exchange/Timeout.antt =====
-- A master that waits for an answer on a silent bus, by i_sys_algo.cpp and mock_bus.cpp together.
use arachnopod.Base.{ℕ, zero, suc, ◌+◌, ◌%◌, ◌^◌, ltb, ◌≤◌, ◌<◌, true, false, none}
use arachnopod.Base.{◌≡◌, refl, ap, arith}
use arachnopod.MockBus.{MockBusState, mock_bus_tick, mock_bus_read_u8}
use arachnopod.Tables.Config.{arp_bus_response_timeout_frames}
use arachnopod.Exchange.Flags.{master, rx, RxFlag, rx_sof, rx_header, rx_data, rx_eof, timeout}
use arachnopod.Exchange.State.{
  BusState, BusHooks, World, with_state, read_bus, mark_result, reset_to_idle,
}
use arachnopod.Exchange.Rx.{irx_sof, irx_header, irx_data, irx_eof}
use arachnopod.Exchange.Run.{
  no_hooks, ibus_exchange, ibus_rx_exchange, rx_dispatch, exchange_dispatch,
}

-- A tick of the simulation for one system: the bus goes on, then the system makes its step.
unfoldable pub tick_step : {U : Type 0} → BusHooks U → ℕ → World U → World U
tick_step hooks tick w =
    ibus_exchange hooks
      (record w { state = record (w.state) { writer_tick = tick }; bus = mock_bus_tick tick w.bus })

-- The ticks `t`, `t + 1`, … of a system that is alone on the bus.
unfoldable pub tick_steps : {U : Type 0} → BusHooks U → ℕ → ℕ → World U → World U
tick_steps hooks t zero w = w
tick_steps hooks t (suc n) w = tick_steps hooks (t + 1) n (tick_step hooks t w)

-- In every receiving state, a step with no byte on the bus changes nothing.
rx_dispatch_silent :
    {U : Type 0} (f : RxFlag) (hooks : BusHooks U) (w : World U)
    → read_bus w ≡ none
    → rx_dispatch f hooks w ≡ w
unfolding rx_dispatch irx_sof irx_header irx_data irx_eof
rx_dispatch_silent rx_sof hooks w h = rw h
rx_dispatch_silent rx_data hooks w h = rw h
rx_dispatch_silent rx_eof hooks w h = rw h
rx_dispatch_silent rx_header hooks w h = ground arith

exchange_rx :
    {U : Type 0} (w : World U)
    → w.state.exchange_flag ≡ rx
    → ibus_exchange no_hooks w ≡ ibus_rx_exchange no_hooks w
unfolding ibus_exchange exchange_dispatch
exchange_rx w h = ap (λ f. exchange_dispatch f no_hooks w) h

-- The world of a waiting master one step later.
abbrev waited : {U : Type 0} → World U → World U
waited w = with_state w (record (w.state) { exchange_wait_clock = w.state.exchange_wait_clock + 1 })

read_bus-waited : {U : Type 0} (w : World U) → read_bus w ≡ none → read_bus (waited w) ≡ none
unfolding read_bus
read_bus-waited w h = h

rx_exchange_wait :
    {U : Type 0} (w : World U)
    → w.state.role ≡ master
    → w.state.exchange_busy ≡ true
    → w.state.exchange_wait_clock < arp_bus_response_timeout_frames
    → ibus_rx_exchange no_hooks w ≡ rx_dispatch w.state.rx_flag no_hooks (waited w)
unfolding ibus_rx_exchange
rx_exchange_wait w r b lt =
    let small : (w.state.exchange_wait_clock + 1) % 2 ^ 16 ≡ w.state.exchange_wait_clock + 1 =
      omega arith in
    let early : ltb arp_bus_response_timeout_frames (w.state.exchange_wait_clock + 1) ≡ false =
      ground arith in
    simp (r, b, small, early)

rx_exchange_expired :
    {U : Type 0} (w : World U)
    → w.state.role ≡ master
    → w.state.exchange_busy ≡ true
    → w.state.exchange_wait_clock ≡ arp_bus_response_timeout_frames
    → ibus_rx_exchange no_hooks w
      ≡ with_state w (reset_to_idle (mark_result timeout (waited w).state))
unfolding ibus_rx_exchange
rx_exchange_expired w r b e =
    let small : (w.state.exchange_wait_clock + 1) % 2 ^ 16 ≡ w.state.exchange_wait_clock + 1 =
      omega arith in
    let late : ltb arp_bus_response_timeout_frames (w.state.exchange_wait_clock + 1) ≡ true =
      ground arith in
    simp (r, b, small, late)

-- The master's state `k` steps into its wait.
abbrev pub IsWaiting : {U : Type 0} → ℕ → World U → Type 0
IsWaiting k w =
    (w.state.role ≡ master)
    × (w.state.exchange_flag ≡ rx)
    × (w.state.exchange_busy ≡ true)
    × (w.state.exchange_wait_clock ≡ k)
    × (w.bus.pending_valid ≡ false)

silent_tick :
    {U : Type 0} (w : World U) (t : ℕ)
    → w.bus.pending_valid ≡ false
    → read_bus
        (record w { state = record (w.state) { writer_tick = t }; bus = mock_bus_tick t w.bus })
      ≡ none
unfolding read_bus mock_bus_tick mock_bus_read_u8
silent_tick w t h = ground arith

-- What the tick itself does to the world.
abbrev ticked : {U : Type 0} → ℕ → World U → World U
ticked t w = record w { state = record (w.state) { writer_tick = t }; bus = mock_bus_tick t w.bus }

pending-tick : (t : ℕ) (s : MockBusState) → (mock_bus_tick t s).pending_valid ≡ false
unfolding mock_bus_tick
pending-tick t s = ground arith

tick_step-IsWaiting :
    {U : Type 0} (w : World U) (t k : ℕ)
    → IsWaiting k w
    → k < arp_bus_response_timeout_frames
    → IsWaiting (suc k) (tick_step no_hooks t w)
unfolding tick_step
tick_step-IsWaiting w t k (r, f, b, c, p) lt =
    rw
      (
        exchange_rx (ticked t w) f,
        rx_exchange_wait (ticked t w) r b (omega arith),
        rx_dispatch_silent w.state.rx_flag no_hooks (waited (ticked t w))
            (read_bus-waited (ticked t w) (silent_tick w t p)),
      )
      (r, f, b, omega arith, pending-tick t w.bus)

tick_step_expired :
    {U : Type 0} (w : World U) (t : ℕ)
    → IsWaiting arp_bus_response_timeout_frames w
    → (tick_step no_hooks t w).state
      ≡ reset_to_idle (mark_result timeout (waited (ticked t w)).state)
unfolding tick_step
tick_step_expired w t (r, f, b, c, p) =
    rw (exchange_rx (ticked t w) f, rx_exchange_expired (ticked t w) r b c)

-- The last tick of the wait: the result is there and the master is idle.
abbrev pub IsTimedOut : BusState → Type 0
IsTimedOut s =
    (s.result_ready ≡ true)
    × (s.last_result ≡ timeout)
    × (s.exchange_busy ≡ false)
    × (s.exchange_flag ≡ rx)
    × (s.rx_flag ≡ rx_sof)
    × (s.exchange_wait_clock ≡ 0)

idle_after_timeout : (s : BusState) → IsTimedOut (reset_to_idle (mark_result timeout s))
unfolding reset_to_idle mark_result
idle_after_timeout s = (refl, refl, refl, refl, refl, refl)

tick_steps_wait :
    {U : Type 0} (n : ℕ) (w : World U) (t k : ℕ)
    → IsWaiting k w
    → k + n ≡ arp_bus_response_timeout_frames
    → IsTimedOut (tick_steps no_hooks t (suc n) w).state
unfolding tick_steps
tick_steps_wait zero w t k h e =
    rw (tick_step_expired w t (h.0, h.1, h.2, omega (arith, h.3), h.4))
      (idle_after_timeout (waited (ticked t w)).state)
tick_steps_wait (suc n) w t k h e =
    tick_steps_wait n (tick_step no_hooks t w) (t + 1) (suc k)
      (tick_step-IsWaiting w t k h (omega arith)) (omega arith)

tick_steps-IsWaiting :
    {U : Type 0} (n : ℕ) (w : World U) (t k m : ℕ)
    → IsWaiting k w
    → k + n ≡ m
    → m ≤ arp_bus_response_timeout_frames
    → IsWaiting m (tick_steps no_hooks t n w)
unfolding tick_steps
tick_steps-IsWaiting zero w t k m h e le = (h.0, h.1, h.2, omega (arith, h.3), h.4)
tick_steps-IsWaiting (suc n) w t k m h e le =
    tick_steps-IsWaiting n (tick_step no_hooks t w) (t + 1) (suc k) m
      (tick_step-IsWaiting w t k h (omega arith)) (omega arith) le

-- A master without hooks that has begun to wait, alone on the bus, in whatever receiving state, still waits
-- after each of ten ticks; after the eleventh it is idle again with the result `timeout` ready.
pub master_times_out :
    {U : Type 0} (w : World U) (t : ℕ)
    → IsWaiting 0 w
    → ((n : ℕ) → n ≤ arp_bus_response_timeout_frames → IsWaiting n (tick_steps no_hooks t n w))
      × IsTimedOut (tick_steps no_hooks t (suc arp_bus_response_timeout_frames) w).state
master_times_out w t h = (
  λ n le. tick_steps-IsWaiting n w t 0 n h (omega arith) le,
  tick_steps_wait arp_bus_response_timeout_frames w t 0 h (omega arith),
)
