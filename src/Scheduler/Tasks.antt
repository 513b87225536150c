-- ===== src/Scheduler/Tasks.antt =====
-- The operations on tasks of cs_scheduler_support.cpp and cs_scheduler.cpp: search, activation,
-- removal, the change of queue, and the requests of the clients.
use arachnopod.Base.{ℕ, zero, suc, ◌+◌, ◌-◌, Bool, true, false, not, ◌&&◌, ◌||◌, Option, none, some}
use arachnopod.Base.{List, [], ◌∷◌, ltb, leb, ◌==◌, if◌then◌else◌, get_or, set}
use arachnopod.Tables.Config.{param_max, param_comm_max, sys_pss, sys_tcs, sys_tms, sys_mns, sys_ls}
use arachnopod.Tables.Entry.{entry}
use arachnopod.Tables.Commands.{base_comm_tab}
use arachnopod.Scheduler.Types.{
  Target, pss, tcs, tms, mns, ls, QueueClass, normal, priority, CompletionKind, command,
  data_request,
}
use arachnopod.Scheduler.State.{
  Task, no_task, SchedulerState, task_at, k_max_tasks, k_invalid_task_id,
}
use arachnopod.Scheduler.Queues.{
  clear_task_slot, remove_slot_from_queues, queue_task_slot, pop_next_task_slot, add_task,
  is_priority,
}

-- The place of a target in `G_NODES`.
unfoldable pub find_node_by_target : Target → Option ℕ
find_node_by_target pss = some 0
find_node_by_target tcs = some 1
find_node_by_target tms = some 2
find_node_by_target mns = some 3
find_node_by_target ls = some 4
find_node_by_target _ = none

-- The `system_id` of the node at a place of `G_NODES`.
unfoldable pub node_system_id : ℕ → ℕ
node_system_id node = get_or (sys_pss ∷ sys_tcs ∷ sys_tms ∷ sys_mns ∷ sys_ls ∷ []) node 0

unfoldable pub command_matches_node : ℕ → ℕ → Bool
unfolding node_system_id
command_matches_node node command_id =
    if ltb command_id param_max || leb param_comm_max command_id
    then false
    else (get_or base_comm_tab (command_id - param_max) (entry 0 0 0 0 0 0 0 0 0 0 0 0 0)).sys_id
      == node_system_id node

abbrev pub is_node : Option ℕ → ℕ → Bool
is_node none node = false
is_node (some n) node = n == node

abbrev pub is_slot : ℕ → Option ℕ → Bool
is_slot slot none = false
is_slot slot (some active) = slot == active

-- The loops of the two searches, from index `i` on, with the rounds left.
unfoldable pub find_slot : (Task → Bool) → ℕ → ℕ → List Task → Option ℕ
find_slot test zero i tasks = none
find_slot test (suc left) i tasks =
    let rest = find_slot test left (i + 1) tasks in
    if test (get_or tasks i no_task) then some i else rest

unfoldable pub find_task_slot_by_id : ℕ → SchedulerState → Option ℕ
unfolding find_slot
find_task_slot_by_id id s =
    if id == k_invalid_task_id
    then none
    else find_slot (λ t. t.used && (t.id == id)) k_max_tasks 0 s.tasks

abbrev pub is_data_kind : CompletionKind → Bool
is_data_kind command = false
is_data_kind data_request = true

unfoldable pub find_periodic_data_task_slot : ℕ → SchedulerState → Option ℕ
unfolding find_slot
find_periodic_data_task_slot node s =
    find_slot
      (λ t. not (
        not t.used || (not t.periodic || (not (is_data_kind t.kind) || not (is_node t.node node)))))
      k_max_tasks 0 s.tasks

abbrev pub same_queue : QueueClass → QueueClass → Bool
same_queue normal q = not (is_priority q)
same_queue priority q = is_priority q

-- The parts of `update_task_queue_class`: out of its queue, into the class, into its queue again.
unfoldable pub dequeued : ℕ → SchedulerState → SchedulerState
dequeued slot s = if (task_at s slot).queued then remove_slot_from_queues slot s else s

unfoldable pub with_queue : ℕ → QueueClass → SchedulerState → SchedulerState
with_queue slot queue s = record s {
  tasks = set s.tasks slot (record (task_at s slot) { queue = queue });
}

unfoldable pub queue_if_ready : ℕ → SchedulerState → SchedulerState
queue_if_ready slot s =
    if not (task_at s slot).active && (task_at s slot).enabled then queue_task_slot slot s else s

unfoldable pub update_task_queue_class : ℕ → QueueClass → SchedulerState → SchedulerState
update_task_queue_class slot queue s =
    if leb k_max_tasks slot
    then s
    else if not (task_at s slot).used || same_queue (task_at s slot).queue queue
    then s
    else queue_if_ready slot (with_queue slot queue (dequeued slot s))

-- What the loop of `remove_tasks_for_node` and the two cancel operations do to one slot: the
-- active task is only marked, any other is taken out of the queues and cleared.
unfoldable pub remove_task : ℕ → SchedulerState → SchedulerState
unfolding remove_slot_from_queues clear_task_slot
remove_task slot s =
    if is_slot slot s.active_task_slot
    then record s {
      tasks = set s.tasks slot (record (task_at s slot) { enabled = false; periodic = false });
    }
    else clear_task_slot slot (remove_slot_from_queues slot s)

-- The loop of `remove_tasks_for_node` from slot `i` on, with the rounds left.
unfoldable pub remove_loop : ℕ → ℕ → ℕ → ℕ → SchedulerState → ℕ × SchedulerState
unfolding remove_task
remove_loop node zero i removed s = (removed, s)
remove_loop node (suc left) i removed s =
    let task = task_at s i in
    let kept = remove_loop node left (i + 1) removed s in
    let gone = remove_loop node left (i + 1) (removed + 1) (remove_task i s) in
    if not task.used || not (is_node task.node node) then kept else gone

unfoldable pub remove_tasks_for_node : ℕ → SchedulerState → ℕ × SchedulerState
unfolding remove_loop
remove_tasks_for_node node s = remove_loop node k_max_tasks 0 0 s

unfoldable pub cancel_task : ℕ → SchedulerState → Bool × SchedulerState
unfolding find_task_slot_by_id remove_task
cancel_task id s = elim (find_task_slot_by_id id s) [
  | none ↦ (false, s)
  | some slot ↦ (true, remove_task slot s)
]

abbrev pub cancel_periodic_of : Option ℕ → SchedulerState → Bool × SchedulerState
cancel_periodic_of none s = (false, s)
cancel_periodic_of (some node) s = elim (find_periodic_data_task_slot node s) [
  | none ↦ (false, s)
  | some slot ↦ (true, remove_task slot s)
]

unfoldable pub cancel_periodic_exchange : Target → SchedulerState → Bool × SchedulerState
unfolding find_node_by_target find_periodic_data_task_slot remove_task
cancel_periodic_exchange target s = cancel_periodic_of (find_node_by_target target) s

unfoldable pub enqueue_exchange : Target → QueueClass → Bool → SchedulerState → ℕ × SchedulerState
unfolding find_node_by_target add_task
enqueue_exchange target queue periodic s = elim (find_node_by_target target) [
  | none ↦ (k_invalid_task_id, s)
  | some node ↦ add_task node data_request queue periodic 0 false false s
]

abbrev pub ensure_periodic_of : Option ℕ → QueueClass → SchedulerState → ℕ × SchedulerState
ensure_periodic_of none queue s = (k_invalid_task_id, s)
ensure_periodic_of (some node) queue s = elim (find_periodic_data_task_slot node s) [
  | none ↦ add_task node data_request queue true 0 false false s
  | some slot ↦ (
    (task_at s slot).id,
    update_task_queue_class slot queue
        (record s { tasks = set s.tasks slot (record (task_at s slot) { enabled = true }) }),
  )
]

unfoldable pub ensure_periodic_exchange : Target → QueueClass → SchedulerState → ℕ × SchedulerState
unfolding find_node_by_target find_periodic_data_task_slot add_task
ensure_periodic_exchange target queue s = ensure_periodic_of (find_node_by_target target) queue s

unfoldable pub enqueue_command :
    Target → ℕ → Bool → QueueClass → SchedulerState → ℕ × SchedulerState
unfolding find_node_by_target command_matches_node add_task
enqueue_command target command_id has_value queue s = elim (find_node_by_target target) [
  | none ↦ (k_invalid_task_id, s)
  | some node ↦
      if not (command_matches_node node command_id)
      then (k_invalid_task_id, s)
      else add_task node command queue false command_id has_value false s
]

abbrev pub has_node : Option ℕ → Bool
has_node none = false
has_node (some node) = true

unfoldable pub activate_task : ℕ → SchedulerState → SchedulerState
activate_task slot s =
    let task = task_at s slot in
    if leb k_max_tasks slot
    then s
    else if not task.used || (not task.enabled || not (has_node task.node))
    then s
    else if task.active
    then s
    else record s {
      tasks = set s.tasks slot (record task { active = true; exchange_armed = false });
      active_task_slot = some slot;
    }

unfoldable pub activate_next_task : SchedulerState → SchedulerState
activate_next_task s =
    let popped = pop_next_task_slot s in
    elim popped.0 [ none ↦ popped.1 | some slot ↦ activate_task slot popped.1 ]
