-- ===== src/Scheduler/State.antt =====
-- The state of software/sim/sim/systems/cs/src/cs_scheduler_internal.hpp. The globals are the
-- fields of one record. A pointer to a node is the node's place in `G_NODES`, or `none` for null;
-- `k_invalid_slot` is `none` where a slot is returned. The float `command_value` of a task is
-- kept beside the tasks, in Cs/Control.antt; the names of nodes are not modelled.
use arachnopod.Base.{ℕ, Bool, false, Option, none, List, [], get_or, replicate}
use arachnopod.Scheduler.Types.{CompletionKind, data_request}
use arachnopod.Scheduler.Types.{QueueClass, normal}

abbrev pub k_max_tasks : ℕ
k_max_tasks = 32

abbrev pub k_invalid_task_id : ℕ
k_invalid_task_id = 0

abbrev pub k_priority_burst_limit : ℕ
k_priority_burst_limit = 3

-- `task_t`; its kind and its queue have the enumerators of the public types.
pub record Task : Type 0 where
  pub used : Bool
  pub queued : Bool
  pub active : Bool
  pub exchange_armed : Bool
  pub periodic : Bool
  pub enabled : Bool
  pub use_staged_window : Bool
  pub id : ℕ
  pub kind : CompletionKind
  pub queue : QueueClass
  pub node : Option ℕ
  pub command_id : ℕ
  pub has_value : Bool

-- `task_t{}`
abbrev pub no_task : Task
no_task = record {
  used = false;
  queued = false;
  active = false;
  exchange_armed = false;
  periodic = false;
  enabled = false;
  use_staged_window = false;
  id = 0;
  kind = data_request;
  queue = normal;
  node = none;
  command_id = 0;
  has_value = false;
}

-- The tasks and their queues: `G_TASKS`, `G_NEXT_TASK_ID`, `G_ACTIVE_TASK_SLOT`, `G_NORMAL_QUEUE`,
-- `G_PRIORITY_QUEUE` and `G_PRIORITY_BURST`.
pub record SchedulerState : Type 0 where
  pub tasks : List Task
  pub next_task_id : ℕ
  pub active_task_slot : Option ℕ
  pub normal_queue : List ℕ
  pub priority_queue : List ℕ
  pub priority_burst : ℕ

abbrev pub task_at : SchedulerState → ℕ → Task
task_at s slot = get_or s.tasks slot no_task

-- `reset` of cs_scheduler.cpp, for these globals.
unfoldable pub reset_tasks : SchedulerState
reset_tasks = record {
  tasks = replicate k_max_tasks no_task;
  next_task_id = 1;
  active_task_slot = none;
  normal_queue = [];
  priority_queue = [];
  priority_burst = 0;
}
