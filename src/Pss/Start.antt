-- ===== src/Pss/Start.antt =====
-- The start of the power system, `runtime_init` of pss/src/pss.cpp: no command is pending, and the
-- power stays as it is.
use arachnopod.Base.{ℕ, true, false, some, List}
use arachnopod.Base.{◌≡◌, ◌⊎◌, length}
use arachnopod.Tables.PssIds
use arachnopod.Ipar.Floats.{FloatOps}
use arachnopod.Pss.Commands.{PssState}
use arachnopod.Pss.System.{PssTick, runtime_init, commands_of}

-- The power system is not bound to the bus yet, or its command message is in place, whatever it holds.
abbrev pub HasMessage : {F : Type 0} → PssTick F → Type 0
HasMessage t =
    (t.world.user.bus_ready ≡ false)
    ⊎ ((t.world.user.bus_ready ≡ true)
        × (old : List ℕ) × (t.world.state.msg_cmd_u16 ≡ some old)
        × (length old ≡ 8))

module _ {F : Type 0} (ops : FloatOps F) (t : PssTick F) where
  abbrev started : PssState F
  started = commands_of ops (runtime_init t)
