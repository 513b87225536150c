-- ===== src/OperatingMode/Failures.antt =====
-- How cs_operating_mode.cpp starts a cooldown after failures in a row.
use arachnopod.Base.{ℕ, zero, suc, ◌<◌, true, min}
use arachnopod.Base.{◌≡◌, ◌∙◌, ◌≢◌, arith, get_or, length-set, get_or-set_self}
use arachnopod.Base.{ltb, if◌then◌else◌}
use arachnopod.Scheduler.Types.{
  Target, CompletionResult, success, Completion, data_request, target_index,
}
use arachnopod.OperatingMode.{
  ModeState, target_count, penalty, take_completion, on_exchange_failure, remember_result,
  valid_background_target, failure_threshold_for, cooldown_ticks_for,
}
use arachnopod.OperatingMode.Recovery.{IsComplete}

-- The completion of a periodic data request to `t` that ended with `r`.
abbrev pub failed : Target → CompletionResult → Completion
failed t r = record {
  valid = true;
  target = t;
  kind = data_request;
  periodic = true;
  have_result = true;
  result = r;
}

-- `n` such completions in a row.
unfoldable pub failures : ℕ → Target → CompletionResult → ModeState → ModeState
failures zero t r s = s
failures (suc n) t r s = take_completion (failed t r) (failures n t r s)

pub index-lt : (t : Target) → valid_background_target t ≡ true → target_index t < target_count
unfolding valid_background_target
index-lt t h = ground arith

one_failure :
    (t : Target) (r : CompletionResult) (s : ModeState)
    → IsComplete s
    → valid_background_target t ≡ true
    → r ≢ success
    → let i = target_index t in
      let after = penalty r (get_or s.failure_streak i 0) (get_or s.cooldown_ticks i 0) in
      let s' = take_completion (failed t r) s in
      IsComplete s'
      × (get_or s'.failure_streak i 0 ≡ after.0)
      × (get_or s'.cooldown_ticks i 0 ≡ after.1)
unfolding take_completion on_exchange_failure remember_result IsComplete
one_failure t r s c v ne =
    let i = target_index t in
    let after = penalty r (get_or s.failure_streak i 0) (get_or s.cooldown_ticks i 0) in
    ground (
      arith,
      index-lt t v,
      length-set s.failure_streak i after.0,
      length-set s.cooldown_ticks i after.1,
      get_or-set_self s.failure_streak i after.0 0,
      get_or-set_self s.cooldown_ticks i after.1 0,
    )

threshold-lt : (r : CompletionResult) → 0 < failure_threshold_for r
unfolding failure_threshold_for
threshold-lt CompletionResult.none = omega arith
threshold-lt CompletionResult.success = omega arith
threshold-lt CompletionResult.timeout = omega arith
threshold-lt CompletionResult.invalid_eof = omega arith

penalty_next :
    (r : CompletionResult) (n : ℕ)
    → let after =
        penalty r
          (min n 255)
          (if ltb n (failure_threshold_for r) then 0 else cooldown_ticks_for r) in
      (after.0 ≡ min (suc n) 255)
      × (after.1 ≡ (if ltb (suc n) (failure_threshold_for r) then 0 else cooldown_ticks_for r))
unfolding failure_threshold_for cooldown_ticks_for
penalty_next CompletionResult.none n = ground arith
penalty_next CompletionResult.success n = ground arith
penalty_next CompletionResult.timeout n = ground arith
penalty_next CompletionResult.invalid_eof n = ground arith

-- From a target that may be polled, without failures, `n` failed periodic requests in a row make a streak of `n`, at
-- most 255; and they start a cooldown, of the length that belongs to the result, as soon as there
-- are as many of them as its threshold, which further failures do not prolong.
pub failures_lem :
    (n : ℕ) (t : Target) (r : CompletionResult) (s : ModeState)
    → IsComplete s
    → valid_background_target t ≡ true
    → r ≢ success
    → get_or s.failure_streak (target_index t) 0 ≡ 0
    → get_or s.cooldown_ticks (target_index t) 0 ≡ 0
    → let s' = failures n t r s in
      IsComplete s'
      × (get_or s'.failure_streak (target_index t) 0 ≡ min n 255)
      × (get_or s'.cooldown_ticks (target_index t) 0
          ≡ (if ltb n (failure_threshold_for r) then 0 else cooldown_ticks_for r))
unfolding failures
failures_lem zero t r s c v ne a b = (c, a, ground (arith, threshold-lt r))
failures_lem (suc n) t r s c v ne a b =
    let before = failures_lem n t r s c v ne a b in
    let one = one_failure t r (failures n t r s) before.0 v ne in
    let next = penalty_next r n in
    (one.0, one.1 ∙ rw (before.1, before.2) next.0, one.2 ∙ rw (before.1, before.2) next.1)
