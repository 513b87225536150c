-- ===== src/Scheduler/Types.antt =====
-- The enumerations and small records of software/sim/sim/systems/cs/include/cs_scheduler.hpp,
-- cs/src/cs_scheduler_internal.hpp and control/interface/i_control_console.hpp.
use arachnopod.Base.{ℕ, Bool, true, false}

-- `control::target_t`
pub data Target : Type 0 where
  any cs pss tcs tms mns ls count : Target

pub data QueueClass : Type 0 where
  normal priority : QueueClass

pub data CompletionKind : Type 0 where
  command data_request : CompletionKind

pub data CompletionResult : Type 0 where
  none success timeout invalid_eof : CompletionResult

-- `completion_t`
pub record Completion : Type 0 where
  pub valid : Bool
  pub target : Target
  pub kind : CompletionKind
  pub periodic : Bool
  pub have_result : Bool
  pub result : CompletionResult

-- `static_cast<std::size_t>(target)`
abbrev pub target_index : Target → ℕ
target_index any = 0
target_index cs = 1
target_index pss = 2
target_index tcs = 3
target_index tms = 4
target_index mns = 5
target_index ls = 6
target_index count = 7

pub Target-discrete : Discrete Target
Target-discrete = hlevel

-- `==` on targets.
abbrev pub same_target : Target → Target → Bool
same_target any any = true
same_target cs cs = true
same_target pss pss = true
same_target tcs tcs = true
same_target tms tms = true
same_target mns mns = true
same_target ls ls = true
same_target count count = true
same_target _ _ = false
