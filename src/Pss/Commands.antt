-- ===== src/Pss/Commands.antt =====
-- The commands of pss/src/pss_support.cpp. Log lines are not modelled.
use arachnopod.Base.{
  ℕ, zero, suc, ◌+◌, Bool, true, false, ◌||◌, u16, ◌==◌, if◌then◌else◌, ℤ, pos, ltb_ℤ, pos_part,
  Option, some, not,
}
use arachnopod.Sys.{TickState}
use arachnopod.Tables.PssIds
use arachnopod.Ipar.Floats.{FloatOps}
use arachnopod.Isim.Values.{IsimStatus, ok, f32_zero}
use arachnopod.Isim.Access.{SimStore, isimgeti32, isimseti32, isimsetf32}
use arachnopod.Icmd.Command.{icmdact, icmdclear, icmdf32, icmdval}
use arachnopod.Icmd.Exec.{ExecState, is_ok}
use arachnopod.Model.Params.{init_params}
use arachnopod.Model.PssTables.{pss_params, pss_local_params}

-- The message context, the model's variables, and `G_SOFTWARE.tick`.
abbrev pub PssState : Type 0 → Type 0
PssState F = ExecState F TickState

unfoldable pub normalize_system_clock : ℤ → ℕ
normalize_system_clock raw =
    if not (ltb_ℤ (pos 0) raw) then 1 else if ltb_ℤ (pos 255) raw then 255 else pos_part raw

-- What one case of the switch of `execute_system_command` does.
pub data SystemAction : Type 0 where
  init_model set_clock no_action : SystemAction
  set_i32 : ℕ → ℤ → SystemAction
  set_val set_f32 : ℕ → SystemAction

unfoldable pub system_action : ℕ → SystemAction
system_action id =
    if id == PssIds.cpssinit
    then init_model
    else if id == PssIds.cpsspwr12on
    then set_i32 PssIds.psspwr12 (pos 1)
    else if id == PssIds.cpsspwr12off
    then set_i32 PssIds.psspwr12 (pos 0)
    else if id == PssIds.cpsspwr6on
    then set_i32 PssIds.psspwr6 (pos 1)
    else if id == PssIds.cpsspwr6off
    then set_i32 PssIds.psspwr6 (pos 0)
    else if id == PssIds.cpsspwr5on
    then set_i32 PssIds.psspwr5 (pos 1)
    else if id == PssIds.cpsspwr5off
    then set_i32 PssIds.psspwr5 (pos 0)
    else if id == PssIds.cpsspwr33on
    then set_i32 PssIds.psspwr33 (pos 1)
    else if id == PssIds.cpsspwr33off
    then set_i32 PssIds.psspwr33 (pos 0)
    else if id == PssIds.cpssecoon
    then set_i32 PssIds.psseco (pos 1)
    else if id == PssIds.cpssecooff
    then set_i32 PssIds.psseco (pos 0)
    else if id == PssIds.cpssmaxt1
    then set_val PssIds.pssmaxt1
    else if id == PssIds.cpssmaxt2
    then set_val PssIds.pssmaxt2
    else if id == PssIds.cpssmaxa
    then set_f32 PssIds.pssmaxa
    else if id == PssIds.cpssmaxw
    then set_f32 PssIds.pssmaxw
    else if id == PssIds.cpssminc
    then set_val PssIds.pssminc
    else if id == PssIds.cpssminv
    then set_f32 PssIds.pssminv
    else if id == PssIds.cpssmaxa12
    then set_f32 PssIds.pssmaxa12
    else if id == PssIds.cpssmaxa6
    then set_f32 PssIds.pssmaxa6
    else if id == PssIds.cpssmaxa5
    then set_f32 PssIds.pssmaxa5
    else if id == PssIds.cpssmaxa33
    then set_f32 PssIds.pssmaxa33
    else if id == PssIds.cpssclock
    then set_clock
    else no_action

module _ {F : Type 0} (ops : FloatOps F) where
  -- After a set with this status: the command is cleared if the set was accepted.
  abbrev pub clear_if_ok : ℕ → PssState F → IsimStatus × SimStore F → Bool × PssState F
  clear_if_ok id s (status, sim) =
      if is_ok status
      then (true, record s { ctx = icmdclear s.ctx id; sim = sim })
      else (false, record s { sim = sim })

  unfoldable pub apply_i32_command : ℕ → ℕ → ℤ → PssState F → Bool × PssState F
  apply_i32_command id param value s =
      if icmdact s.ctx id then clear_if_ok id s (isimseti32 ops param value s.sim) else (false, s)

  unfoldable pub apply_f32_command : ℕ → ℕ → PssState F → Bool × PssState F
  apply_f32_command id param s =
      if icmdact s.ctx id
      then clear_if_ok id s (isimsetf32 ops param (icmdf32 ops s.ctx id (f32_zero ops)) s.sim)
      else (false, s)

  -- `sim_pss_base::init_defaults`
  unfoldable pub init_defaults : SimStore F → SimStore F
  unfolding init_params
  init_defaults sim = record sim {
    cells = init_params ops pss_local_params (init_params ops pss_params sim.cells);
  }

  abbrev pub run_action : SystemAction → ℕ → PssState F → PssState F
  run_action init_model id s = record s { ctx = icmdclear s.ctx id; sim = init_defaults s.sim }
  run_action set_clock id s = record s {
    ctx = icmdclear s.ctx id;
    user = record (s.user) { clock = normalize_system_clock (icmdval ops s.ctx id (pos 0)) };
  }
  run_action no_action id s = s
  run_action (set_i32 param value) id s = (apply_i32_command id param value s).1
  run_action (set_val param) id s =
      (clear_if_ok id s (isimseti32 ops param (icmdval ops s.ctx id (pos 0)) s.sim)).1
  run_action (set_f32 param) id s = (apply_f32_command id param s).1

  unfoldable pub execute_system_command : ℕ → PssState F → PssState F
  execute_system_command id s =
      if not (icmdact s.ctx id) then s else run_action (system_action id) id s

  abbrev pub skip_or_execute : ℕ → PssState F → PssState F
  skip_or_execute id s =
      if (id == PssIds.cpsspwron) || (id == PssIds.cpsspwroff)
      then s
      else execute_system_command id s

  -- The loop of `apply_system_commands`: the rounds left, and the command of the round.
  unfoldable pub system_loop : ℕ → ℕ → PssState F → PssState F
  system_loop zero id s = s
  system_loop (suc left) id s = system_loop left (u16 (id + 1)) (skip_or_execute id s)

  unfoldable pub apply_system_commands : PssState F → PssState F
  apply_system_commands s = system_loop PssIds.cpss_count PssIds.cpss_base s

  unfoldable pub execute_power_command : ℕ → PssState F → PssState F
  unfolding apply_i32_command
  execute_power_command id s =
      if id == PssIds.cpsspwron
      then (apply_i32_command id PssIds.psspwr (pos 1) s).1
      else if id == PssIds.cpsspwroff
      then (apply_i32_command id PssIds.psspwr (pos 0) s).1
      else s

  -- The value read, or 0 where reading fails.
  abbrev pub i32_read : IsimStatus × Option ℤ → ℤ
  i32_read (ok, some value) = value
  i32_read (_, _) = pos 0

  abbrev pub switch_off : ℕ → SimStore F → SimStore F
  switch_off param sim = (isimseti32 ops param (pos 0) sim).1

  abbrev pub channels_off : SimStore F → SimStore F
  channels_off sim =
      switch_off PssIds.psspwr33
        (switch_off PssIds.psspwr5 (switch_off PssIds.psspwr6 (switch_off PssIds.psspwr12 sim)))

  abbrev pub is_zero_i32 : ℤ → Bool
  is_zero_i32 (pos n) = n == 0
  is_zero_i32 _ = false

  -- The end of `apply_power_commands`: the channels follow the main power.
  unfoldable pub follow_main_power : PssState F → PssState F
  follow_main_power s =
      if is_zero_i32 (i32_read (isimgeti32 ops PssIds.psspwr s.sim))
      then record s { sim = channels_off s.sim }
      else s

  unfoldable pub apply_power_commands : PssState F → PssState F
  apply_power_commands s =
      follow_main_power
        (execute_power_command PssIds.cpsspwroff (execute_power_command PssIds.cpsspwron s))

  unfoldable pub is_power_on : SimStore F → Bool
  is_power_on sim = not (is_zero_i32 (i32_read (isimgeti32 ops PssIds.psspwr sim)))
