-- ===== src/Scheduler/Queues.antt =====
-- The task slots and the two queues of cs_scheduler_support.cpp.
use arachnopod.Base.{ℕ, zero, suc, ◌+◌, Bool, true, false, not, ◌&&◌, ◌||◌, Option, none, some}
use arachnopod.Base.{List, [], ◌∷◌, ◌++◌, ltb, leb, ◌==◌, if◌then◌else◌, get_or, set, u32, u64}
use arachnopod.Scheduler.Types.{QueueClass, normal, priority, CompletionKind}
use arachnopod.Scheduler.State.{
  Task, no_task, SchedulerState, task_at, k_max_tasks, k_invalid_task_id, k_priority_burst_limit,
}

unfoldable pub clear_task_slot : ℕ → SchedulerState → SchedulerState
clear_task_slot slot s =
    if leb k_max_tasks slot then s else record s { tasks = set s.tasks slot no_task }

-- The first entry equal to `slot` goes.
unfoldable pub remove_slot_from_queue : ℕ → List ℕ → List ℕ
remove_slot_from_queue slot [] = []
remove_slot_from_queue slot (x ∷ xs) =
    let rest = remove_slot_from_queue slot xs in if x == slot then xs else x ∷ rest

unfoldable pub remove_slot_from_queues : ℕ → SchedulerState → SchedulerState
remove_slot_from_queues slot s = record s {
  normal_queue = remove_slot_from_queue slot s.normal_queue;
  priority_queue = remove_slot_from_queue slot s.priority_queue;
  tasks =
      if ltb slot k_max_tasks
      then set s.tasks slot (record (task_at s slot) { queued = false })
      else s.tasks;
}

-- The loop of `alloc_task_slot` from index `i` on, with the rounds left.
unfoldable pub find_free : ℕ → ℕ → List Task → Option ℕ
find_free zero i tasks = none
find_free (suc left) i tasks =
    let rest = find_free left (i + 1) tasks in
    if not (get_or tasks i no_task).used then some i else rest

unfoldable pub alloc_task_slot : SchedulerState → Option ℕ
unfolding find_free
alloc_task_slot s = find_free k_max_tasks 0 s.tasks

abbrev pub is_priority : QueueClass → Bool
is_priority normal = false
is_priority priority = true

abbrev pub push_slot : ℕ → QueueClass → SchedulerState → SchedulerState
push_slot slot priority s = record s { priority_queue = s.priority_queue ++ (slot ∷ []) }
push_slot slot normal s = record s { normal_queue = s.normal_queue ++ (slot ∷ []) }

unfoldable pub queue_task_slot : ℕ → SchedulerState → SchedulerState
queue_task_slot slot s =
    let task = task_at s slot in
    if leb k_max_tasks slot
    then s
    else if not task.used || (task.queued || (task.active || not task.enabled))
    then s
    else record (push_slot slot task.queue s) {
      tasks = set s.tasks slot (record task { queued = true });
    }

-- What `pop_valid` returns, the queue after it and the tasks after it.
pub record Popped : Type 0 where
  pub slot : Option ℕ
  pub queue : List ℕ
  pub tasks : List Task

unfoldable pub pop_valid : List ℕ → List Task → Popped
pop_valid [] tasks = record { slot = none; queue = []; tasks = tasks }
pop_valid (slot ∷ rest) tasks =
    let task = get_or tasks slot no_task in
    let tasks' = set tasks slot (record task { queued = false }) in
    let skipped = pop_valid rest tasks in
    let next = pop_valid rest tasks' in
    if leb k_max_tasks slot
    then skipped
    else if task.used && task.enabled
    then record { slot = some slot; queue = rest; tasks = tasks' }
    else next

abbrev pub is_empty : List ℕ → Bool
is_empty [] = true
is_empty (x ∷ xs) = false

-- `++G_PRIORITY_BURST` of a `size_t`.
abbrev pub take_priority : Popped → SchedulerState → SchedulerState
take_priority p s = record s {
  priority_queue = p.queue;
  tasks = p.tasks;
  priority_burst = u64 (s.priority_burst + 1);
}

-- The part of `pop_next_task_slot` after the normal queue has no valid task.
unfoldable pub pop_late_priority : Bool → SchedulerState → Option ℕ × SchedulerState
pop_late_priority have_priority s =
    let p = pop_valid s.priority_queue s.tasks in
    let nothing = record s { priority_burst = 0 } in
    if have_priority
    then elim p.slot [
      | some slot ↦ (some slot, take_priority p s)
      | none ↦ (none, record s { priority_queue = p.queue; tasks = p.tasks; priority_burst = 0 })
    ]
    else (none, nothing)

-- The part of `pop_next_task_slot` from the normal queue on.
unfoldable pub pop_normal : Bool → SchedulerState → Option ℕ × SchedulerState
pop_normal have_priority s =
    let p = pop_valid s.normal_queue s.tasks in
    let s' = record s { normal_queue = p.queue; tasks = p.tasks } in
    elim p.slot [
      | some slot ↦ (some slot, record s' { priority_burst = 0 })
      | none ↦ pop_late_priority have_priority s'
    ]

-- `none` is `k_invalid_slot`.
unfoldable pub pop_next_task_slot : SchedulerState → Option ℕ × SchedulerState
pop_next_task_slot s =
    let have_priority = not (is_empty s.priority_queue) in
    let have_normal = not (is_empty s.normal_queue) in
    let p = pop_valid s.priority_queue s.tasks in
    let s' = record s { priority_queue = p.queue; tasks = p.tasks } in
    if have_priority && (not have_normal || ltb s.priority_burst k_priority_burst_limit)
    then elim p.slot [
      | some slot ↦ (some slot, take_priority p s)
      | none ↦ pop_normal have_priority s'
    ]
    else pop_normal have_priority s

-- The part of `add_task` after the slot is allocated. The id is a `uint32_t` and wraps.
abbrev pub place_task : Option ℕ → Task → SchedulerState → ℕ × SchedulerState
place_task none task s = (k_invalid_task_id, s)
place_task (some slot) task s = (
  s.next_task_id,
  queue_task_slot slot
      (record s { next_task_id = u32 (s.next_task_id + 1); tasks = set s.tasks slot task }),
)

-- The task that `add_task` makes, with the id `id`.
abbrev pub new_task : ℕ → CompletionKind → QueueClass → Bool → ℕ → Bool → Bool → ℕ → Task
new_task node kind queue periodic command_id has_value use_staged_window id = record {
  used = true;
  queued = false;
  active = false;
  exchange_armed = false;
  periodic = periodic;
  enabled = true;
  use_staged_window = use_staged_window;
  id = id;
  kind = kind;
  queue = queue;
  node = some node;
  command_id = command_id;
  has_value = has_value;
}

unfoldable pub add_task :
    ℕ → CompletionKind → QueueClass → Bool → ℕ → Bool → Bool → SchedulerState → ℕ × SchedulerState
add_task node kind queue periodic command_id has_value use_staged_window s =
    place_task (alloc_task_slot s)
      (new_task node kind queue periodic command_id has_value use_staged_window s.next_task_id) s
