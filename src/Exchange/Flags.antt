-- ===== src/Exchange/Flags.antt =====
-- The enumerations of software/sim/sim/systems/sub/interface/i_sys_algo.hpp.
pub data BusRole : Type 0 where
  device master : BusRole

pub data ExchangeFlag : Type 0 where
  rx tx bypass : ExchangeFlag

pub data RxFlag : Type 0 where
  rx_sof rx_header rx_data rx_eof : RxFlag

pub data TxFlag : Type 0 where
  tx_sof tx_header tx_data tx_eof : TxFlag

pub data ExchangeResult : Type 0 where
  none success timeout invalid_eof : ExchangeResult
