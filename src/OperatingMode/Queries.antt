-- ===== src/OperatingMode/Queries.antt =====
-- What the operating mode answers: the status and the policy of a target, of
-- cs_operating_mode.cpp and cs_operating_mode_support.cpp.
use arachnopod.Base.{ℕ, Bool, false, not, ◌&&◌, ◌||◌}
use arachnopod.Base.{Option, none, some, ◌==◌, if◌then◌else◌, get_or}
use arachnopod.Scheduler.Types.{
  Target, any, QueueClass, normal, priority, CompletionResult, target_index, same_target,
}
use arachnopod.OperatingMode.{ModeState, valid_background_target}

-- `mode_t`
pub data Mode : Type 0 where
  nominal focused_mode : Mode

-- `node_policy_t`
pub record NodePolicy : Type 0 where
  pub periodic_exchange : Bool
  pub queue : QueueClass

-- `target_status_t`
pub record TargetStatus : Type 0 where
  pub background_enabled : Bool
  pub focused : Bool
  pub in_cooldown : Bool
  pub failure_streak : ℕ
  pub cooldown_ticks : ℕ
  pub has_last_result : Bool
  pub last_result : CompletionResult

unfoldable pub background_target_enabled : Target → ModeState → Bool
background_target_enabled t s =
    if not (valid_background_target t)
    then false
    else get_or s.background_enabled (target_index t) false

unfoldable pub target_in_cooldown : Target → ModeState → Bool
target_in_cooldown t s =
    if not (valid_background_target t)
    then false
    else not (get_or s.cooldown_ticks (target_index t) 0 == 0)

-- `none` is the `false` of the source.
unfoldable pub build_target_status : Target → ModeState → Option TargetStatus
build_target_status t s =
    if not (valid_background_target t)
    then none
    else some (record {
      background_enabled = get_or s.background_enabled (target_index t) false;
      focused = same_target s.focus t;
      in_cooldown = not (get_or s.cooldown_ticks (target_index t) 0 == 0);
      failure_streak = get_or s.failure_streak (target_index t) 0;
      cooldown_ticks = get_or s.cooldown_ticks (target_index t) 0;
      has_last_result = get_or s.has_last_result (target_index t) false;
      last_result = get_or s.last_result (target_index t) CompletionResult.none;
    })

unfoldable pub current_mode : ModeState → Mode
current_mode s = if same_target s.focus any then nominal else focused_mode

unfoldable pub is_target_focused : Target → ModeState → Bool
is_target_focused t s = not (same_target t any) && same_target t s.focus

unfoldable pub queue_for : Target → ModeState → QueueClass
unfolding is_target_focused
queue_for t s = if is_target_focused t s then priority else normal

unfoldable pub policy_for : Target → ModeState → NodePolicy
unfolding target_in_cooldown background_target_enabled is_target_focused
policy_for t s =
    if target_in_cooldown t s
    then record { periodic_exchange = false; queue = normal }
    else record {
      periodic_exchange = background_target_enabled t s || is_target_focused t s;
      queue = if is_target_focused t s then priority else normal;
    }
