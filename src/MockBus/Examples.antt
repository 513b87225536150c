-- ===== src/MockBus/Examples.antt =====
-- Concrete runs of mock_bus.cpp.
use arachnopod.Base.{ℕ, true, Option, none, some, ◌≡◌, arith, ◌==◌, if◌then◌else◌}
use arachnopod.MockBus.{mock_bus_read_u8}
use arachnopod.MockBus.Delivery.{run_ticks, run_ticks_delay}

-- A byte is written in tick 3 only.
abbrev one_write : ℕ → Option ℕ
one_write k = if k == 3 then some 85 else none

run_ticks_delay_example : mock_bus_read_u8 4 true (run_ticks one_write 4) ≡ one_write 3
run_ticks_delay_example = run_ticks_delay one_write 2 (omega arith)
