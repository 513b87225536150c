-- ===== src/Sys.antt =====
-- software/sim/sim/systems/sub/interface/i_sys.hpp and sub/src/i_sys.cpp: the tick counters of a
-- system, and the clearing of message blocks.
mod Examples
pub mod Clock
use arachnopod.Base.{ℕ, zero, suc, ◌+◌, Option, none, some, List}
use arachnopod.Base.{u8, u64, ◌==◌, if◌then◌else◌, set}

-- `tick_state_t`
pub record TickState : Type 0 where
  pub count : ℕ
  pub clock : ℕ

unfoldable pub isysreset : TickState
isysreset = record { count = 0; clock = 0 }

unfoldable pub isystep : TickState → TickState
isystep s = record {
  count = u64 (s.count + 1);
  clock = if s.clock == 255 then 1 else u8 (s.clock + 1);
}

-- The loop of `ISYSCLEAR`, on a buffer that starts at `base`.
unfoldable pub clear_loop : ℕ → ℕ → ℕ → List ℕ → List ℕ
clear_loop zero i base buf = buf
clear_loop (suc left) i base buf = clear_loop left (i + 1) base (set buf (base + i) 0)

-- `ISYSCLEAR(buf + base, count)`; `none` is a null pointer.
unfoldable pub isysclear : Option (List ℕ) → ℕ → ℕ → Option (List ℕ)
unfolding clear_loop
isysclear none base count = none
isysclear (some buf) base count = some (clear_loop count 0 base buf)
