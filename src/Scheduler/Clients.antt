-- ===== src/Scheduler/Clients.antt =====
-- The operations that cs_scheduler.cpp offers keep the slots in order.
use arachnopod.Base.{
  ℕ, zero, suc, ◌+◌, ◌≤◌, ◌<◌, Bool, true, false, not, ◌&&◌, ◌||◌, Option, none, some,
}
use arachnopod.Base.{◌≡◌, inl, inr, Bool-cases, refl, arith, ◌==◌, if◌then◌else◌, set}
use arachnopod.Scheduler.Types.{Target, QueueClass, data_request, command}
use arachnopod.Scheduler.State.{SchedulerState, task_at, k_max_tasks, k_invalid_task_id}
use arachnopod.Scheduler.Queues.{add_task}
use arachnopod.Scheduler.Tasks.{
  is_node, is_data_kind, remove_task, find_task_slot_by_id, find_periodic_data_task_slot,
  update_task_queue_class, remove_loop, remove_tasks_for_node, cancel_task, cancel_periodic_of,
  cancel_periodic_exchange, enqueue_exchange, ensure_periodic_of, ensure_periodic_exchange,
  enqueue_command, command_matches_node, find_node_by_target,
}
use arachnopod.Scheduler.Consistent.{IsConsistent}
use arachnopod.Scheduler.Requests.{
  task-IsConsistent, remove_task-IsConsistent, find_slot-lt, add_task-IsConsistent,
}
use arachnopod.Scheduler.Requeued.{update_task_queue_class-IsConsistent}

remove_loop-IsConsistent :
    (node left i removed : ℕ) (s : SchedulerState)
    → IsConsistent s
    → i + left ≤ k_max_tasks
    → IsConsistent (remove_loop node left i removed s).1
unfolding remove_loop
remove_loop-IsConsistent node zero i removed s h lt = h
remove_loop-IsConsistent node (suc left) i removed s h lt =
    elim (Bool-cases (not (task_at s i).used || not (is_node (task_at s i).node node))) [
      | inl e ↦ rw e (remove_loop-IsConsistent node left (i + 1) removed s h (omega arith))
      | inr e ↦ rw e (
          remove_loop-IsConsistent node left (i + 1) (removed + 1) (remove_task i s)
            (remove_task-IsConsistent i s h (omega arith)) (omega arith))
    ]

pub remove_tasks_for_node-IsConsistent :
    (node : ℕ) (s : SchedulerState) → IsConsistent s → IsConsistent (remove_tasks_for_node node s).1
unfolding remove_tasks_for_node
remove_tasks_for_node-IsConsistent node s h =
    remove_loop-IsConsistent node k_max_tasks 0 0 s h (omega arith)

find_task_slot_by_id-lt :
    (id slot : ℕ) (s : SchedulerState) → find_task_slot_by_id id s ≡ some slot → slot < k_max_tasks
unfolding find_task_slot_by_id
find_task_slot_by_id-lt id slot s e = elim (Bool-cases (id == k_invalid_task_id)) [
  | inl z ↦ absurd (ground (arith, z))
  | inr z ↦
      find_slot-lt (λ t. t.used && (t.id == id)) k_max_tasks 0 s.tasks slot (ground (arith, z))
]

find_periodic-lt :
    (node slot : ℕ) (s : SchedulerState)
    → find_periodic_data_task_slot node s ≡ some slot
    → slot < k_max_tasks
unfolding find_periodic_data_task_slot
find_periodic-lt node slot s e =
    find_slot-lt
      (λ t. not (
        not t.used || (not t.periodic || (not (is_data_kind t.kind) || not (is_node t.node node)))))
      k_max_tasks 0 s.tasks slot e

pub cancel_task-IsConsistent :
    (id : ℕ) (s : SchedulerState) → IsConsistent s → IsConsistent (cancel_task id s).1
unfolding cancel_task
cancel_task-IsConsistent id s h = go (find_task_slot_by_id id s) refl
  where
    go :
        (o : Option ℕ)
        → find_task_slot_by_id id s ≡ o
        → IsConsistent
            (elim o as (λ x. Bool × SchedulerState) [
              | none ↦ (false, s)
              | some slot ↦ (true, remove_task slot s)
            ]).1
    go none e = h
    go (some slot) e = remove_task-IsConsistent slot s h (find_task_slot_by_id-lt id slot s e)

cancel_periodic_of-IsConsistent :
    (node : Option ℕ) (s : SchedulerState)
    → IsConsistent s
    → IsConsistent (cancel_periodic_of node s).1
cancel_periodic_of-IsConsistent none s h = h
cancel_periodic_of-IsConsistent (some node) s h = go (find_periodic_data_task_slot node s) refl
  where
    go :
        (o : Option ℕ)
        → find_periodic_data_task_slot node s ≡ o
        → IsConsistent
            (elim o as (λ x. Bool × SchedulerState) [
              | none ↦ (false, s)
              | some slot ↦ (true, remove_task slot s)
            ]).1
    go none e = h
    go (some slot) e = remove_task-IsConsistent slot s h (find_periodic-lt node slot s e)

pub cancel_periodic_exchange-IsConsistent :
    (target : Target) (s : SchedulerState)
    → IsConsistent s
    → IsConsistent (cancel_periodic_exchange target s).1
unfolding cancel_periodic_exchange
cancel_periodic_exchange-IsConsistent target s h =
    cancel_periodic_of-IsConsistent (find_node_by_target target) s h

pub enqueue_exchange-IsConsistent :
    (target : Target) (queue : QueueClass) (periodic : Bool) (s : SchedulerState)
    → IsConsistent s
    → IsConsistent (enqueue_exchange target queue periodic s).1
unfolding enqueue_exchange
enqueue_exchange-IsConsistent target queue periodic s h = go (find_node_by_target target)
  where
    go :
        (o : Option ℕ)
        → IsConsistent
            (elim o as (λ x. ℕ × SchedulerState) [
              | none ↦ (k_invalid_task_id, s)
              | some node ↦ add_task node data_request queue periodic 0 false false s
            ]).1
    go none = h
    go (some node) = add_task-IsConsistent node data_request queue periodic 0 false false s h

-- Enabling a periodic task of a consistent state, in its class.
enabled-IsConsistent :
    (slot : ℕ) (s : SchedulerState)
    → IsConsistent s
    → slot < k_max_tasks
    → IsConsistent
        (record s { tasks = set s.tasks slot (record (task_at s slot) { enabled = true }) })
enabled-IsConsistent slot s h lt =
    let ok = h.slots slot in
    task-IsConsistent slot s (record (task_at s slot) { enabled = true }) h lt
      (record {
        in_normal = ok.in_normal;
        in_priority = ok.in_priority;
        is_active = ok.is_active;
        is_used = ok.is_used;
        not_both = ok.not_both;
        may_run = ground arith;
        placed = ok.placed;
      })

ensure_periodic_of-IsConsistent :
    (node : Option ℕ) (queue : QueueClass) (s : SchedulerState)
    → IsConsistent s
    → IsConsistent (ensure_periodic_of node queue s).1
ensure_periodic_of-IsConsistent none queue s h = h
ensure_periodic_of-IsConsistent (some node) queue s h =
    go (find_periodic_data_task_slot node s) refl
  where
    go :
        (o : Option ℕ)
        → find_periodic_data_task_slot node s ≡ o
        → IsConsistent
            (elim o as (λ x. ℕ × SchedulerState) [
              | none ↦ add_task node data_request queue true 0 false false s
              | some slot ↦ (
                (task_at s slot).id,
                update_task_queue_class slot queue (record s {
                  tasks = set s.tasks slot (record (task_at s slot) { enabled = true });
                }),
              )
            ]).1
    go none e = add_task-IsConsistent node data_request queue true 0 false false s h
    go (some slot) e =
        let lt = find_periodic-lt node slot s e in
        update_task_queue_class-IsConsistent slot queue
          (record s { tasks = set s.tasks slot (record (task_at s slot) { enabled = true }) })
          (enabled-IsConsistent slot s h lt) lt

pub ensure_periodic_exchange-IsConsistent :
    (target : Target) (queue : QueueClass) (s : SchedulerState)
    → IsConsistent s
    → IsConsistent (ensure_periodic_exchange target queue s).1
unfolding ensure_periodic_exchange
ensure_periodic_exchange-IsConsistent target queue s h =
    ensure_periodic_of-IsConsistent (find_node_by_target target) queue s h

pub enqueue_command-IsConsistent :
    (target : Target) (command_id : ℕ) (has_value : Bool) (queue : QueueClass) (s : SchedulerState)
    → IsConsistent s
    → IsConsistent (enqueue_command target command_id has_value queue s).1
unfolding enqueue_command
enqueue_command-IsConsistent target command_id has_value queue s h = go (find_node_by_target target)
  where
    go :
        (o : Option ℕ)
        → IsConsistent
            (elim o as (λ x. ℕ × SchedulerState) [
              | none ↦ (k_invalid_task_id, s)
              | some node ↦
                  if not (command_matches_node node command_id)
                  then (k_invalid_task_id, s)
                  else add_task node command queue false command_id has_value false s
            ]).1
    go none = h
    go (some node) = elim (Bool-cases (command_matches_node node command_id)) [
      | inl e ↦ rw e (add_task-IsConsistent node command queue false command_id has_value false s h)
      | inr e ↦ rw e h
    ]
