-- ===== src/OperatingMode/Examples.antt =====
-- Concrete runs of cs_operating_mode.cpp.
use arachnopod.Base.{◌-◌, ◌&&◌, true, false, [], ◌∷◌, ◌≡◌, ◌≢◌, refl, arith, min}
use arachnopod.Base.{ltb, leb, if◌then◌else◌, get_or, length}
use arachnopod.Scheduler.Types.{tcs, mns, success, timeout, target_index, same_target}
use arachnopod.OperatingMode.{
  ModeState, reset, target_count, failure_threshold_for, cooldown_ticks_for, take_completion,
  on_exchange_failure, remember_result, valid_background_target,
}
use arachnopod.OperatingMode.Penalty.{
  IsSound, focus_on, one_step, enable_background, run_operations, run_operations-IsSound,
}
use arachnopod.OperatingMode.Recovery.{IsComplete, quiet_steps, quiet_steps_recover}
use arachnopod.OperatingMode.Failures.{failed, failures, failures_lem}

reset-facts :
    (same_target (reset.focus) mns ≡ false)
    × (length (reset.cooldown_ticks) ≡ target_count)
    × IsComplete reset
    × (get_or (reset.failure_streak) (target_index tcs) 0 ≡ 0)
    × (get_or (reset.cooldown_ticks) (target_index tcs) 0 ≡ 0)
unfolding reset IsComplete
reset-facts = (refl, refl, (refl, refl), refl, refl)

run_operations-IsSound_example : IsSound (
    run_operations
      (focus_on mns ∷ one_step (failed tcs timeout ∷ []) ∷ enable_background tcs false ∷ [])
      reset)
run_operations-IsSound_example =
    run_operations-IsSound
      (focus_on mns ∷ one_step (failed tcs timeout ∷ []) ∷ enable_background tcs false ∷ [])

timeout-ne-success : timeout ≢ success
timeout-ne-success e = ground arith

tcs-valid : valid_background_target tcs ≡ true
unfolding valid_background_target
tcs-valid = refl

failures_lem_example :
    let s' = failures 3 tcs timeout reset in
    IsComplete s'
    × (get_or s'.failure_streak (target_index tcs) 0 ≡ min 3 255)
    × (get_or s'.cooldown_ticks (target_index tcs) 0
        ≡ (if ltb 3 (failure_threshold_for timeout) then 0 else cooldown_ticks_for timeout))
failures_lem_example =
    failures_lem 3 tcs timeout reset reset-facts.2 tcs-valid timeout-ne-success reset-facts.3
      reset-facts.4

-- TCS after three timeouts cools down for 96 steps.
abbrev cooling : ModeState
cooling = failures 3 tcs timeout reset

cooling-IsComplete : IsComplete cooling
cooling-IsComplete =
    (failures_lem 3 tcs timeout reset reset-facts.2 tcs-valid timeout-ne-success reset-facts.3
      reset-facts.4).0

cooling_ticks : get_or cooling.cooldown_ticks 3 0 ≡ 96
unfolding failures take_completion on_exchange_failure remember_result failure_threshold_for
    cooldown_ticks_for reset valid_background_target
cooling_ticks = refl

quiet_steps_recover_example :
    let c = get_or cooling.cooldown_ticks 3 0 in
    (get_or (quiet_steps 96 cooling).cooldown_ticks 3 0 ≡ c - 96)
    × (get_or (quiet_steps 96 cooling).failure_streak 3 0
        ≡ (if ltb 0 c && leb c 96 then 0 else get_or cooling.failure_streak 3 0))
quiet_steps_recover_example = quiet_steps_recover 96 3 cooling cooling-IsComplete (omega arith)
