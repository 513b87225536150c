-- ===== src/Scheduler/Requests.antt =====
-- The requests and cancellations of cs_scheduler.cpp keep the slots in order.
use arachnopod.Base.{ℕ, zero, suc, ◌+◌, ◌<◌, Bool, false, Option, none, some, List}
use arachnopod.Base.{◌≡◌, inl, inr, Bool-cases, refl, arith}
use arachnopod.Base.{set, get_or-set_self, u32}
use arachnopod.Scheduler.Types.{QueueClass, CompletionKind}
use arachnopod.Scheduler.State.{Task, no_task, SchedulerState, task_at, k_max_tasks}
use arachnopod.Scheduler.Queues.{
  find_free, alloc_task_slot, remove_slot_from_queues, add_task, place_task, new_task,
}
use arachnopod.Scheduler.Tasks.{is_slot, remove_task, find_slot}
use arachnopod.Scheduler.Slots.{find_free_lem}
use arachnopod.Scheduler.Consistent.{
  occurrences, SlotState, SlotState-same, IsConsistent, rebuilt, set-SameElsewhere,
}
use arachnopod.Scheduler.Placing.{
  Vacant, IsReady, queue-IsConsistent, clear-IsConsistent, remove-Vacant,
}

-- A change of a task that its slot's order does not depend on.
pub task-IsConsistent :
    (slot : ℕ) (s : SchedulerState) (t : Task)
    → IsConsistent s
    → slot < k_max_tasks
    → SlotState t
        (is_slot slot s.active_task_slot)
        (occurrences slot s.normal_queue)
        (occurrences slot s.priority_queue)
    → IsConsistent (record s { tasks = set s.tasks slot t })
task-IsConsistent slot s t h lt ok =
    rebuilt slot s (record s { tasks = set s.tasks slot t }) h (set-SameElsewhere slot s t)
      (SlotState-same (get_or-set_self s.tasks slot t no_task (omega (arith, lt, h.size))) refl refl
        refl ok)

pub remove_task-IsConsistent :
    (slot : ℕ) (s : SchedulerState)
    → IsConsistent s
    → slot < k_max_tasks
    → IsConsistent (remove_task slot s)
unfolding remove_task
remove_task-IsConsistent slot s h lt = elim (Bool-cases (is_slot slot s.active_task_slot)) [
  | inl e ↦
      let ok = h.slots slot in
      rw e (
        task-IsConsistent slot s (record (task_at s slot) { enabled = false; periodic = false }) h
          lt
          (record {
            in_normal = ok.in_normal;
            in_priority = ok.in_priority;
            is_active = ok.is_active;
            is_used = ok.is_used;
            not_both = ok.not_both;
            may_run = ground (arith, ok.not_both, ok.is_active, e);
            placed = ok.placed;
          }))
  | inr e ↦
      rw e
        (clear-IsConsistent slot s (remove_slot_from_queues slot s) h (remove-Vacant slot s h lt e))
]

pub find_slot-lt :
    (test : Task → Bool) (left i : ℕ) (tasks : List Task) (slot : ℕ)
    → find_slot test left i tasks ≡ some slot
    → slot < i + left
unfolding find_slot
find_slot-lt test zero i tasks slot e = absurd (ground arith)
find_slot-lt test (suc left) i tasks slot e =
    ground (arith, find_slot-lt test left (i + 1) tasks slot)

unused-Vacant :
    (slot next : ℕ) (s : SchedulerState) (t : Task)
    → IsConsistent s
    → slot < k_max_tasks
    → (task_at s slot).used ≡ false
    → Vacant slot s (record s { next_task_id = next; tasks = set s.tasks slot t })
unused-Vacant slot next s t h lt free =
    let same = set-SameElsewhere slot s t in
    let ok = h.slots slot in
    record {
      same = record {
        tasks = same.tasks;
        active = same.active;
        normals = same.normals;
        priorities = same.priorities;
        size = same.size;
      };
      below = lt;
      no_normal = ground (arith, ok.in_normal, ok.is_used);
      no_priority = ground (arith, ok.in_priority, ok.is_used);
      inactive = ground (arith, ok.is_active, ok.is_used);
    }

place_task-IsConsistent :
    (o : Option ℕ) (t : Task) (s : SchedulerState)
    → IsConsistent s
    → ((slot : ℕ) → o ≡ some slot → (slot < k_max_tasks) × ((task_at s slot).used ≡ false))
    → IsReady t
    → IsConsistent (place_task o t s).1
place_task-IsConsistent none t s h free r = h
place_task-IsConsistent (some slot) t s h free r =
    let (lt, unused) = free slot refl in
    let s1 = record s { next_task_id = u32 (s.next_task_id + 1); tasks = set s.tasks slot t } in
    queue-IsConsistent slot s s1 h (unused-Vacant slot (u32 (s.next_task_id + 1)) s t h lt unused)
      (rw (get_or-set_self s.tasks slot t no_task (omega (arith, lt, h.size))) r)

pub add_task-IsConsistent :
    (node : ℕ) (kind : CompletionKind) (queue : QueueClass) (periodic : Bool) (command_id : ℕ)
    → (has_value staged : Bool) (s : SchedulerState) → IsConsistent s
    → IsConsistent (add_task node kind queue periodic command_id has_value staged s).1
unfolding add_task alloc_task_slot
add_task-IsConsistent node kind queue periodic command_id has_value staged s h =
    place_task-IsConsistent (find_free k_max_tasks 0 s.tasks)
      (new_task node kind queue periodic command_id has_value staged s.next_task_id) s h
      (λ slot e.
        let found = (find_free_lem k_max_tasks 0 s.tasks).0 slot e in
        (omega (arith, found), ground (arith, found)))
      (record { used = refl; unqueued = refl; idle = refl; enabled = refl; placed = refl })
