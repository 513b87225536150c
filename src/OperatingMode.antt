-- ===== src/OperatingMode.antt =====
-- software/sim/sim/systems/cs/src/cs_operating_mode.cpp and cs_operating_mode_support.cpp: which
-- targets CS polls, and how it backs off from a target that does not answer. The arrays of the
-- source have an element for each enumerator of `target_t` below `count`; they are lists. The
-- global `G_STATE` is a record that the operations take and return. Log lines are not modelled.
mod Examples
pub mod Failures
pub mod Backoff
pub mod Fair
pub mod Penalty
pub mod Policy
pub mod Queries
pub mod Recovery
use arachnopod.Base.{ℕ, zero, suc, ◌+◌, ◌-◌, Bool, true, false, not, ◌&&◌, ◌||◌, List, [], ◌∷◌}
use arachnopod.Base.{Option, none, some, ltb, ◌==◌, if◌then◌else◌, get_or, set, replicate}
use arachnopod.Scheduler.Types.{
  Target, pss, tcs, tms, mns, ls, any, QueueClass, normal, priority, CompletionKind, command,
  data_request, CompletionResult, success, timeout, invalid_eof, Completion, target_index,
  same_target,
}

abbrev pub k_timeout_failure_threshold : ℕ
k_timeout_failure_threshold = 3

abbrev pub k_invalid_eof_failure_threshold : ℕ
k_invalid_eof_failure_threshold = 1

abbrev pub k_timeout_cooldown_ticks : ℕ
k_timeout_cooldown_ticks = 96

abbrev pub k_invalid_eof_cooldown_ticks : ℕ
k_invalid_eof_cooldown_ticks = 160

-- `target_t::count`
abbrev pub target_count : ℕ
target_count = 7

-- `state_t`
pub record ModeState : Type 0 where
  pub focus : Target
  pub background_enabled : List Bool
  pub failure_streak : List ℕ
  pub cooldown_ticks : List ℕ
  pub has_last_result : List Bool
  pub last_result : List CompletionResult

abbrev pub initial_state : ModeState
initial_state = record {
  focus = any;
  background_enabled = replicate target_count false;
  failure_streak = replicate target_count 0;
  cooldown_ticks = replicate target_count 0;
  has_last_result = replicate target_count false;
  last_result = replicate target_count CompletionResult.none;
}

unfoldable pub reset : ModeState
reset = record initial_state {
  background_enabled = set (initial_state.background_enabled) (target_index tcs) true;
}

unfoldable pub valid_focus_target : Target → Bool
valid_focus_target pss = true
valid_focus_target tcs = true
valid_focus_target tms = true
valid_focus_target mns = true
valid_focus_target ls = true
valid_focus_target _ = false

unfoldable pub valid_background_target : Target → Bool
valid_background_target pss = true
valid_background_target tcs = true
valid_background_target tms = true
valid_background_target mns = true
valid_background_target ls = true
valid_background_target _ = false

unfoldable pub clear_target_state : Target → ModeState → ModeState
clear_target_state t s = record s {
  failure_streak = set s.failure_streak (target_index t) 0;
  cooldown_ticks = set s.cooldown_ticks (target_index t) 0;
}

unfoldable pub set_focus_target : Target → ModeState → Bool × ModeState
set_focus_target t s =
    if not (valid_focus_target t)
    then (false, s)
    else if same_target s.focus t
    then (true, s)
    else (true, clear_target_state t (record s { focus = t }))

unfoldable pub clear_focus_target : ModeState → ModeState
clear_focus_target s = record s { focus = any }

unfoldable pub set_background_target_enabled : Target → Bool → ModeState → Bool × ModeState
set_background_target_enabled t enabled s =
    let s' = record s { background_enabled = set s.background_enabled (target_index t) enabled } in
    if not (valid_background_target t)
    then (false, s)
    else (true, if enabled then clear_target_state t s' else s')

unfoldable pub failure_threshold_for : CompletionResult → ℕ
failure_threshold_for invalid_eof = k_invalid_eof_failure_threshold
failure_threshold_for _ = k_timeout_failure_threshold

unfoldable pub cooldown_ticks_for : CompletionResult → ℕ
cooldown_ticks_for invalid_eof = k_invalid_eof_cooldown_ticks
cooldown_ticks_for _ = k_timeout_cooldown_ticks

unfoldable pub remember_result : Target → CompletionResult → ModeState → ModeState
remember_result t r s = record s {
  has_last_result = set s.has_last_result (target_index t) true;
  last_result = set s.last_result (target_index t) r;
}

unfoldable pub on_exchange_success : Target → ModeState → ModeState
unfolding clear_target_state remember_result
on_exchange_success t s =
    if not (valid_background_target t)
    then s
    else clear_target_state t (remember_result t success s)

-- The streak and the cooldown after a failure of kind `r`; the streak is a byte that saturates.
abbrev pub penalty : CompletionResult → ℕ → ℕ → ℕ × ℕ
penalty r streak cooldown =
    let streak' = if ltb streak 255 then streak + 1 else streak in
    if ltb streak' (failure_threshold_for r)
    then (streak', cooldown)
    else (streak', if cooldown == 0 then cooldown_ticks_for r else cooldown)

unfoldable pub on_exchange_failure : Target → CompletionResult → ModeState → ModeState
unfolding remember_result
on_exchange_failure t r s =
    let i = target_index t in
    let after = penalty r (get_or s.failure_streak i 0) (get_or s.cooldown_ticks i 0) in
    if not (valid_background_target t) then s else record (remember_result t r s) {
      failure_streak = set s.failure_streak i after.0;
      cooldown_ticks = set s.cooldown_ticks i after.1;
    }

abbrev pub is_success : CompletionResult → Bool
is_success success = true
is_success _ = false

abbrev pub is_data_request : CompletionKind → Bool
is_data_request command = false
is_data_request data_request = true

-- The body of the loop of `update_completion_feedback`.
unfoldable pub take_completion : Completion → ModeState → ModeState
take_completion c s =
    if not c.valid || not c.have_result
    then s
    else if is_success c.result
    then on_exchange_success c.target s
    else if c.periodic && is_data_request c.kind
    then on_exchange_failure c.target c.result s
    else s

-- The loop pops every completion that the scheduler holds.
unfoldable pub update_completion_feedback : List Completion → ModeState → ModeState
update_completion_feedback [] s = s
update_completion_feedback (c ∷ cs) s = update_completion_feedback cs (take_completion c s)

-- The body of the loop of `tick_cooldowns`, at index `i`.
unfoldable pub tick_cooldown : ℕ → ModeState → ModeState
tick_cooldown i s =
    let cooldown = get_or s.cooldown_ticks i 0 in
    if cooldown == 0 then s else record s {
      cooldown_ticks = set s.cooldown_ticks i (cooldown - 1);
      failure_streak = if cooldown - 1 == 0 then set s.failure_streak i 0 else s.failure_streak;
    }

unfoldable pub tick_loop : ℕ → ℕ → ModeState → ModeState
tick_loop zero i s = s
tick_loop (suc left) i s = tick_loop left (i + 1) (tick_cooldown i s)

unfoldable pub tick_cooldowns : ModeState → ModeState
unfolding tick_loop
tick_cooldowns s = tick_loop target_count 0 s

-- The second part is the scheduler's list of completions, empty afterwards.
unfoldable pub step : List Completion → ModeState → ModeState × List Completion
step completions s = (tick_cooldowns (update_completion_feedback completions s), [])
