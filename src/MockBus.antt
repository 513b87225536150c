-- ===== src/MockBus.antt =====
-- software/sim/sim/systems/bus_mock: the byte bus that the simulated systems share. The state keeps
-- one byte visible in the current tick and one pending byte written during it. Each operation of
-- the source holds the mutex for its whole body, so operations do not overlap.
mod Examples
pub mod Delivery
use arachnopod.Base.{ℕ, ◌+◌, Bool, true, false, not, ◌&&◌, ◌||◌, Option, none, some}
use arachnopod.Base.{u32, ◌==◌, if◌then◌else◌}

-- `mock_bus_state_t`
pub record MockBusState : Type 0 where
  pub visible_data : ℕ
  pub visible_tick : ℕ
  pub visible_valid : Bool
  pub pending_data : ℕ
  pub pending_tick : ℕ
  pub pending_valid : Bool

unfoldable pub mock_bus_init : MockBusState
mock_bus_init = record {
  visible_data = 0;
  visible_tick = 0;
  visible_valid = false;
  pending_data = 0;
  pending_tick = 0;
  pending_valid = false;
}

unfoldable pub mock_bus_tick : ℕ → MockBusState → MockBusState
mock_bus_tick tick s =
    if s.pending_valid && (u32 (s.pending_tick + 1) == tick)
    then record s {
      visible_data = s.pending_data;
      visible_tick = tick;
      visible_valid = true;
      pending_valid = false;
    }
    else record s {
      visible_data = 0;
      visible_tick = tick;
      visible_valid = false;
      pending_valid = false;
    }

unfoldable pub mock_bus_write_u8 : ℕ → ℕ → MockBusState → MockBusState
mock_bus_write_u8 tick value s = record s {
  pending_data = value;
  pending_tick = tick;
  pending_valid = true;
}

-- `out_value` says whether the pointer of that name is not null. `none` is `return false`.
unfoldable pub mock_bus_read_u8 : ℕ → Bool → MockBusState → Option ℕ
mock_bus_read_u8 tick out_value s =
    if not out_value
    then none
    else if not s.visible_valid || not (s.visible_tick == tick)
    then none
    else some s.visible_data
