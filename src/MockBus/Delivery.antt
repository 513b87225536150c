-- ===== src/MockBus/Delivery.antt =====
-- What the bus of mock_bus.cpp delivers, tick by tick.
use arachnopod.Base.{ℕ, zero, suc, ◌^◌, ◌<◌, Bool, true, Option, none, some}
use arachnopod.Base.{◌≡◌, refl, arith}
use arachnopod.MockBus.{
  MockBusState, mock_bus_init, mock_bus_tick, mock_bus_write_u8, mock_bus_read_u8,
}

-- A write is not seen by a read before the next call of `mock_bus_tick`, whatever the ticks of
-- the two are.
pub read_u8-write_u8 :
    (s : MockBusState) (tick tick' v : ℕ) (out : Bool)
    → mock_bus_read_u8 tick out (mock_bus_write_u8 tick' v s) ≡ mock_bus_read_u8 tick out s
unfolding mock_bus_read_u8 mock_bus_write_u8
read_u8-write_u8 s tick tick' v out = refl

abbrev pub write_some : ℕ → Option ℕ → MockBusState → MockBusState
write_some tick none s = s
write_some tick (some v) s = mock_bus_write_u8 tick v s

-- The bus after the ticks 1 to `n`, where `w k` is the byte, if any, that is written in tick `k`.
pub run_ticks : (ℕ → Option ℕ) → ℕ → MockBusState
run_ticks w zero = mock_bus_init
run_ticks w (suc n) = write_some (suc n) (w (suc n)) (mock_bus_tick (suc n) (run_ticks w n))

delivered :
    (s : MockBusState) (tick : ℕ) (o o' : Option ℕ)
    → suc tick < 2 ^ 32
    → mock_bus_read_u8 (suc tick) true (
        write_some
          (suc tick)
          o'
          (mock_bus_tick (suc tick) (write_some tick o (mock_bus_tick tick s))))
      ≡ o
unfolding mock_bus_read_u8 mock_bus_write_u8 mock_bus_tick
delivered s tick none none h = ground arith
delivered s tick _ _ h = ground arith

-- The bus is a delay line of one tick: in tick `n + 2` the bus reads what was written in tick
-- `n + 1`, and reads nothing if nothing was.
pub run_ticks_delay :
    (w : ℕ → Option ℕ) (n : ℕ)
    → suc (suc n) < 2 ^ 32
    → mock_bus_read_u8 (suc (suc n)) true (run_ticks w (suc (suc n))) ≡ w (suc n)
unfolding run_ticks
run_ticks_delay w n h = delivered (run_ticks w n) (suc n) (w (suc n)) (w (suc (suc n))) h
