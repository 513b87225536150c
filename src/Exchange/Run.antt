-- ===== src/Exchange/Run.antt =====
-- The step of software/sim/sim/systems/sub/src/i_sys_algo.cpp: IBUS_RX_EXCHANGE,
-- IBUS_TX_EXCHANGE, IBUS_BYPASS and IBUS_EXCHANGE.
use arachnopod.Base.{◌+◌, ◌&&◌, u16, ltb, if◌then◌else◌, none}
use arachnopod.Tables.Config.{arp_bus_response_timeout_frames}
use arachnopod.Exchange.Flags.{
  ExchangeFlag, rx, tx, bypass, RxFlag, rx_sof, rx_header, rx_data, rx_eof, TxFlag, tx_sof,
  tx_header, tx_data, tx_eof, timeout,
}
use arachnopod.Exchange.State.{
  BusHooks, World, call_hook_state, call_hook_log, with_state, mark_result, reset_to_idle,
}
use arachnopod.Exchange.Rx.{is_master, irx_sof, irx_header, irx_data, irx_eof}
use arachnopod.Exchange.Tx.{itx_sof, itx_header, itx_data, itx_eof}

-- Both systems of the source that exchange on the bus install no hook (cs/src/cs_support.cpp,
-- pss/src/pss_support.cpp).
abbrev pub no_hooks : {U : Type 0} → BusHooks U
no_hooks = record {
  parse_header = none;
  gen_header = none;
  bypass = none;
  log_exchange = none;
  on_error = none;
}

unfoldable pub rx_dispatch : {U : Type 0} → RxFlag → BusHooks U → World U → World U
rx_dispatch rx_sof hooks w = irx_sof w
rx_dispatch rx_header hooks w = irx_header hooks w
rx_dispatch rx_data hooks w = irx_data w
rx_dispatch rx_eof hooks w = irx_eof hooks w

unfoldable pub tx_dispatch : {U : Type 0} → TxFlag → BusHooks U → World U → World U
tx_dispatch tx_sof hooks w = itx_sof w
tx_dispatch tx_header hooks w = itx_header hooks w
tx_dispatch tx_data hooks w = itx_data w
tx_dispatch tx_eof hooks w = itx_eof w

unfoldable pub time_out : {U : Type 0} → BusHooks U → World U → World U
unfolding mark_result
time_out hooks w =
    let called = call_hook_state hooks.on_error (with_state w (mark_result timeout w.state)) in
    with_state called (reset_to_idle called.state)

unfoldable pub ibus_rx_exchange : {U : Type 0} → BusHooks U → World U → World U
unfolding time_out
ibus_rx_exchange hooks w =
    let waited =
      with_state w
        (record (w.state) { exchange_wait_clock = u16 (w.state.exchange_wait_clock + 1) }) in
    if is_master w.state.role && w.state.exchange_busy
    then (if ltb arp_bus_response_timeout_frames waited.state.exchange_wait_clock
        then time_out hooks waited
        else rx_dispatch w.state.rx_flag hooks waited)
    else rx_dispatch w.state.rx_flag hooks w

unfoldable pub ibus_tx_exchange : {U : Type 0} → BusHooks U → World U → World U
ibus_tx_exchange hooks w = tx_dispatch w.state.tx_flag hooks w

unfoldable pub ibus_bypass : {U : Type 0} → BusHooks U → World U → World U
ibus_bypass hooks w = call_hook_state hooks.bypass w

unfoldable pub exchange_dispatch : {U : Type 0} → ExchangeFlag → BusHooks U → World U → World U
exchange_dispatch rx hooks w = ibus_rx_exchange hooks w
exchange_dispatch tx hooks w = ibus_tx_exchange hooks w
exchange_dispatch bypass hooks w = ibus_bypass hooks w

unfoldable pub ibus_exchange : {U : Type 0} → BusHooks U → World U → World U
ibus_exchange hooks w =
    call_hook_log hooks.log_exchange (exchange_dispatch w.state.exchange_flag hooks w)
