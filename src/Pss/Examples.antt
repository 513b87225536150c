-- ===== src/Pss/Examples.antt =====
-- A concrete state of the power system.
use arachnopod.Base.{some, none, false, refl, arith, replicate, ℤ}
use arachnopod.Tables.Config.{sys_pss, arp_addr_pss, arp_addr_cs}
use arachnopod.Ipar.Context.{device}
use arachnopod.Ipar.WholeFloats.{whole_floats}
use arachnopod.Isim.Registry.{isimreg_build}
use arachnopod.Isim.Access.{no_cell}
use arachnopod.Model.PssTables.{pss_isim_params}
use arachnopod.Sys.{isysreset}
use arachnopod.MockBus.{mock_bus_init}
use arachnopod.Exchange.Flags.{BusRole}
use arachnopod.Tools.{bind_standard_bus, reset_software_state}
use arachnopod.Pss.System.{PssTick, pss_sizes}
use arachnopod.Tables.PssIds
use arachnopod.Pss.Commands.{PssState, apply_power_commands}
use arachnopod.Pss.Power.{IsPss}
use arachnopod.Pss.Interlock.{Powered, apply_power_commands_lem}

-- The bits 1 and 2 of the first block are the two commands of the main power.
abbrev switched_off : PssState ℤ
switched_off = record {
  ctx = record {
    role = device;
    system_id = sys_pss;
    msg_prm = some (replicate 15 0);
    msg_prm_blocks = 15;
    msg_cmd = some (replicate 8 4);
    msg_cmd_blocks = 8;
  };
  sim = record { registry = some (isimreg_build pss_isim_params); cells = replicate 31 no_cell };
  user = record { count = 0; clock = 0 };
}

switched_off-IsPss : IsPss whole_floats switched_off
switched_off-IsPss = record {
  bs = replicate 8 4;
  commands = record { buffer = refl; words = ground arith; counted = ground arith };
  role = refl;
  store = record { registry = refl; cells = ground arith };
}

apply_power_commands_lem_example :
    Powered whole_floats switched_off (apply_power_commands whole_floats switched_off)
apply_power_commands_lem_example =
    apply_power_commands_lem whole_floats switched_off switched_off-IsPss

abbrev not_started : PssTick ℤ
not_started = record {
  tick = isysreset;
  world = record {
    state = bind_standard_bus BusRole.device sys_pss arp_addr_pss arp_addr_cs pss_sizes;
    bus = mock_bus_init;
    user = record {
      sim = record { registry = none; cells = replicate 31 no_cell };
      software = reset_software_state;
      bus_ready = false;
    };
  };
}
