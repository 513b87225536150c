-- ===== src/OperatingMode/Policy.antt =====
-- The effect of a focus in cs_operating_mode.cpp on what is polled.
use arachnopod.Base.{true, false, ◌≡◌}
use arachnopod.Base.{get_or-set_self, length, arith}
use arachnopod.Scheduler.Types.{Target, any, cs, pss, tcs, tms, mns, ls, count, same_target}
use arachnopod.OperatingMode.{
  ModeState, set_focus_target, valid_focus_target, clear_target_state, target_count,
}
use arachnopod.OperatingMode.Queries.{target_in_cooldown, is_target_focused}

-- A focus that is accepted, on another target than the one in focus, makes the target pollable at
-- once and with priority; a refused one changes nothing.
pub set_focus_target_lem :
    (t : Target) (s : ModeState)
    → same_target s.focus t ≡ false
    → length s.cooldown_ticks ≡ target_count
    → let after = set_focus_target t s in
      (after.0 ≡ valid_focus_target t)
      × (after.0 ≡ true
          → (target_in_cooldown t after.1 ≡ false) × (is_target_focused t after.1 ≡ true))
      × (after.0 ≡ false → after.1 ≡ s)
unfolding set_focus_target target_in_cooldown is_target_focused valid_focus_target
    clear_target_state
set_focus_target_lem any s h len = ground arith
set_focus_target_lem cs s h len = ground arith
set_focus_target_lem pss s h len = ground (arith, get_or-set_self s.cooldown_ticks 2 0 0)
set_focus_target_lem tcs s h len = ground (arith, get_or-set_self s.cooldown_ticks 3 0 0)
set_focus_target_lem tms s h len = ground (arith, get_or-set_self s.cooldown_ticks 4 0 0)
set_focus_target_lem mns s h len = ground (arith, get_or-set_self s.cooldown_ticks 5 0 0)
set_focus_target_lem ls s h len = ground (arith, get_or-set_self s.cooldown_ticks 6 0 0)
set_focus_target_lem count s h len = ground arith
