-- ===== src/OperatingMode/Recovery.antt =====
-- How cs_operating_mode.cpp lets a target recover from a cooldown.
use arachnopod.Base.{ℕ, zero, suc, ◌+◌, ◌-◌, ◌<◌, [], ◌&&◌}
use arachnopod.Base.{◌≡◌, arith, length, get_or, length-set}
use arachnopod.Base.{get_or-set_self, get_or-set_ne, leb, ltb, ◌==◌, if◌then◌else◌}
use arachnopod.OperatingMode.{
  ModeState, target_count, tick_cooldown, tick_loop, tick_cooldowns, step,
  update_completion_feedback,
}

-- The lists have an element for each target.
unfoldable pub IsComplete : ModeState → Type 0
IsComplete s = (length s.failure_streak ≡ target_count) × (length s.cooldown_ticks ≡ target_count)

tick_cooldown-IsComplete : (i : ℕ) (s : ModeState) → IsComplete s → IsComplete (tick_cooldown i s)
unfolding tick_cooldown IsComplete
tick_cooldown-IsComplete i s h =
    let c = get_or s.cooldown_ticks i 0 in
    ground (arith, length-set s.failure_streak i 0, length-set s.cooldown_ticks i (c - 1))

-- The cooldown and the streak of target `j` after the loop's body for target `i`.
tick_cooldown-get_or :
    (i j : ℕ) (s : ModeState)
    → IsComplete s
    → j < target_count
    → let c = get_or s.cooldown_ticks j 0 in
      (get_or (tick_cooldown i s).cooldown_ticks j 0 ≡ (if i == j then c - 1 else c))
      × (get_or (tick_cooldown i s).failure_streak j 0
          ≡ (if (i == j) && (c == 1) then 0 else get_or s.failure_streak j 0))
unfolding tick_cooldown IsComplete
tick_cooldown-get_or i j s h lt =
    let c = get_or s.cooldown_ticks i 0 in
    ground (
      arith,
      get_or-set_self s.cooldown_ticks i (c - 1) 0,
      get_or-set_ne s.cooldown_ticks i j (c - 1) 0,
      get_or-set_self s.failure_streak i 0 0,
      get_or-set_ne s.failure_streak i j 0 0,
    )

tick_loop-get_or :
    (n i j : ℕ) (s : ModeState)
    → IsComplete s
    → j < target_count
    → let c = get_or s.cooldown_ticks j 0 in
      let mine = leb i j && ltb j (i + n) in
      IsComplete (tick_loop n i s)
      × (get_or (tick_loop n i s).cooldown_ticks j 0 ≡ (if mine then c - 1 else c))
      × (get_or (tick_loop n i s).failure_streak j 0
          ≡ (if mine && (c == 1) then 0 else get_or s.failure_streak j 0))
unfolding tick_loop
tick_loop-get_or zero i j s h lt = ground arith
tick_loop-get_or (suc n) i j s h lt = ground (
  arith,
  tick_cooldown-get_or i j s h lt,
  tick_loop-get_or n (i + 1) j (tick_cooldown i s) (tick_cooldown-IsComplete i s h) lt,
)

-- `k` steps during which no exchange completes.
unfoldable pub quiet_steps : ℕ → ModeState → ModeState
quiet_steps zero s = s
quiet_steps (suc k) s = quiet_steps k (step [] s).0

step-get_or :
    (j : ℕ) (s : ModeState)
    → IsComplete s
    → j < target_count
    → let c = get_or s.cooldown_ticks j 0 in
      IsComplete (step [] s).0
      × (get_or (step [] s).0.cooldown_ticks j 0 ≡ c - 1)
      × (get_or (step [] s).0.failure_streak j 0
          ≡ (if c == 1 then 0 else get_or s.failure_streak j 0))
unfolding step tick_cooldowns update_completion_feedback
step-get_or j s h lt = ground (arith, tick_loop-get_or target_count 0 j s h lt)

-- A cooldown of `c` steps ends after exactly `c` steps without a completion, whatever the other
-- targets do: after `k` steps it is `c - k` (0 when `k` is `c` or more), and the failure streak is
-- 0 from the step on with which a cooldown has ended, and unchanged before.
pub quiet_steps_recover :
    (k j : ℕ) (s : ModeState)
    → IsComplete s
    → j < target_count
    → let c = get_or s.cooldown_ticks j 0 in
      (get_or (quiet_steps k s).cooldown_ticks j 0 ≡ c - k)
      × (get_or (quiet_steps k s).failure_streak j 0
          ≡ (if ltb 0 c && leb c k then 0 else get_or s.failure_streak j 0))
unfolding quiet_steps
quiet_steps_recover zero j s h lt = ground arith
quiet_steps_recover (suc k) j s h lt =
    let one = step-get_or j s h lt in
    ground (arith, one, quiet_steps_recover k j (step [] s).0 one.0 lt)
