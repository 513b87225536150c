-- ===== src/Icmd/Examples.antt =====
-- Concrete commands of i_cmd.cpp and i_cmd_exec.cpp.
use arachnopod.Base.{
  ℕ, false, ◌||◌, none, some, [], ◌∷◌, ◌≡◌, ◌≢◌, refl, arith, replicate, ℤ, pos, get_or, length,
  if◌then◌else◌,
}
use arachnopod.Tables.Config.{sys_pss}
use arachnopod.Tables.Commands.{base_comm_tab}
use arachnopod.Ipar.Context.{device, ParContext}
use arachnopod.Ipar.WholeFloats.{whole_floats}
use arachnopod.Isim.Values.{Binding, u8_kind, binary, ok, u8_value}
use arachnopod.Isim.Registry.{find_binding, lower_bound}
use arachnopod.Isim.Access.{no_cell, isimgeti32}
use arachnopod.Isim.Stored.{kept_value}
use arachnopod.Icmd.Command.{icmdact}
use arachnopod.Icmd.Exec.{CmdBinding, bool_pair, ExecState, apply_bool_pair}
use arachnopod.Icmd.Cleared.{HasCommands, Cleared, icmdclear_lem}
use arachnopod.Icmd.Pair.{IsReady, IsPair, apply_bool_pair_lem}

abbrev pss_commands : ParContext
pss_commands = record {
  role = device;
  system_id = sys_pss;
  msg_prm = none;
  msg_prm_blocks = 0;
  msg_cmd = some (replicate 8 8);
  msg_cmd_blocks = 8;
}

pss_commands-HasCommands : HasCommands pss_commands (replicate 8 8)
pss_commands-HasCommands = record { buffer = refl; words = ground arith; counted = ground arith }

icmdclear_lem_example : Cleared pss_commands 55
icmdclear_lem_example = icmdclear_lem pss_commands 55 (replicate 8 8) pss_commands-HasCommands

abbrev channel : Binding
channel = record { id = 1; kind = u8_kind; domain = binary; ptr = some 0 }

abbrev channel_pair : CmdBinding
channel_pair = record { mode = bool_pair; cmd_id = 55; alt_cmd_id = 56; param_id = 1 }

abbrev channel_state : ExecState ℤ ℕ
channel_state = record {
  ctx = pss_commands;
  sim = record { registry = some (channel ∷ []); cells = u8_value 0 ∷ [] };
  user = 0;
}

channel-IsReady : IsReady whole_floats none channel_pair channel 0 channel_state
unfolding find_binding lower_bound
channel-IsReady = record {
  bs = replicate 8 8;
  commands = pss_commands-HasCommands;
  bound = record {
    bindings = _;
    registry = refl;
    found = refl;
    points = refl;
    held = ground arith;
  };
}

channel-IsPair : IsPair whole_floats none channel_pair channel 0 channel_state
unfolding base_comm_tab
channel-IsPair = record {
  distinct = ground arith;
  on_off = refl;
  off_on = refl;
  takes_on = ground arith;
  takes_off = ground arith;
}

apply_bool_pair_lem_example :
    let (changed, after) = apply_bool_pair whole_floats none channel_pair channel_state in
    (changed ≡ (icmdact pss_commands 55 || icmdact pss_commands 56))
    × (icmdact after.ctx 55 ≡ false)
    × (icmdact after.ctx 56 ≡ false)
    × (isimgeti32 whole_floats 1 after.sim ≡ (
        if icmdact pss_commands 56
        then (ok, some (kept_value u8_kind binary (pos 0)))
        else if icmdact pss_commands 55
        then (ok, some (kept_value u8_kind binary (pos 1)))
        else isimgeti32 whole_floats 1 channel_state.sim))
    × ((q : ℕ)
        → 0 ≢ q
        → get_or after.sim.cells q no_cell ≡ get_or channel_state.sim.cells q no_cell)
    × (after.sim.registry ≡ channel_state.sim.registry)
    × (length after.sim.cells ≡ length channel_state.sim.cells)
    × (after.user ≡ 0)
apply_bool_pair_lem_example =
    apply_bool_pair_lem whole_floats none channel_pair channel 0 channel_state channel-IsReady
      channel-IsPair
