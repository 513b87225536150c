-- ===== src/Scheduler/Placing.antt =====
-- Taking a slot of cs_scheduler_support.cpp out of use and putting it to use keeps the slots in order.
use arachnopod.Base.{ℕ, ◌<◌, true, false, not, ◌||◌}
use arachnopod.Base.{◌≡◌, refl, arith, leb, if◌then◌else◌}
use arachnopod.Base.{get_or, set, get_or-set_self}
use arachnopod.Scheduler.Types.{QueueClass, normal, priority}
use arachnopod.Scheduler.State.{Task, no_task, SchedulerState, task_at, k_max_tasks}
use arachnopod.Scheduler.Queues.{
  is_priority, push_slot, remove_slot_from_queues, queue_task_slot, clear_task_slot,
}
use arachnopod.Scheduler.Tasks.{is_slot, has_node}
use arachnopod.Scheduler.Consistent.{
  occurrences, occurrences-append, occurrences-remove, SlotState, SlotState-same, SlotOk,
  IsConsistent, SameElsewhere, rebuilt, set-SameElsewhere, then-SameElsewhere,
  remove_slot_from_queues-SameElsewhere, push_slot-SameElsewhere,
}

-- The slot stands in no queue of `s` and is not the active one; all else is as in `s0`.
pub record Vacant (slot : ℕ) (s0 s : SchedulerState) : Type 0 where
  pub same : SameElsewhere slot s0 s
  pub below : slot < k_max_tasks
  pub no_normal : occurrences slot s.normal_queue ≡ 0
  pub no_priority : occurrences slot s.priority_queue ≡ 0
  pub inactive : is_slot slot s.active_task_slot ≡ false

-- A task that may be queued.
pub record IsReady (t : Task) : Type 0 where
  pub used : t.used ≡ true
  pub unqueued : t.queued ≡ false
  pub idle : t.active ≡ false
  pub enabled : t.enabled ≡ true
  pub placed : has_node t.node ≡ true

-- The state that `queue_task_slot` makes of a task in the queue `q`.
abbrev pushed : ℕ → QueueClass → Task → SchedulerState → SchedulerState
pushed slot q t s = record (push_slot slot q s) {
  tasks = set s.tasks slot (record t { queued = true });
}

pushed-SlotState :
    (q : QueueClass) (t : Task)
    → t.queue ≡ q
    → IsReady t
    → SlotState
        (record t { queued = true })
        false
        (if is_priority q then 0 else 1)
        (if is_priority q then 1 else 0)
pushed-SlotState q t c r = record {
  in_normal = ground arith;
  in_priority = ground arith;
  is_active = ground arith;
  is_used = ground arith;
  not_both = ground arith;
  may_run = ground arith;
  placed = ground arith;
}

pushed-SlotOk :
    (slot : ℕ) (q : QueueClass) (s0 s : SchedulerState) (t : Task)
    → IsConsistent s0
    → Vacant slot s0 s
    → t.queue ≡ q
    → IsReady t
    → SlotOk (pushed slot q t s) slot
pushed-SlotOk slot q s0 s t h v c r = go q (pushed-SlotState q t c r)
  where
    here :
        get_or (set s.tasks slot (record t { queued = true })) slot no_task
        ≡ record t { queued = true }
    here =
        get_or-set_self s.tasks slot (record t { queued = true }) no_task
          (omega (arith, v.below, v.same.size, h.size))

    go :
        (q : QueueClass)
        → SlotState
            (record t { queued = true })
            false
            (if is_priority q then 0 else 1)
            (if is_priority q then 1 else 0)
        → SlotOk (pushed slot q t s) slot
    go normal x =
        SlotState-same here v.inactive
          (ground (arith, occurrences-append slot slot s.normal_queue, v.no_normal)) v.no_priority x
    go priority x =
        SlotState-same here v.inactive v.no_normal
          (ground (arith, occurrences-append slot slot s.priority_queue, v.no_priority)) x

pushed-SameElsewhere :
    (slot : ℕ) (q : QueueClass) (s : SchedulerState) (t : Task)
    → SameElsewhere slot s (pushed slot q t s)
pushed-SameElsewhere slot normal s t =
    then-SameElsewhere slot s (push_slot slot normal s) (pushed slot normal t s)
      (push_slot-SameElsewhere slot normal s)
      (set-SameElsewhere slot (push_slot slot normal s) (record t { queued = true }))
pushed-SameElsewhere slot priority s t =
    then-SameElsewhere slot s (push_slot slot priority s) (pushed slot priority t s)
      (push_slot-SameElsewhere slot priority s)
      (set-SameElsewhere slot (push_slot slot priority s) (record t { queued = true }))

-- Queueing a vacant slot whose task is ready.
pub queue-IsConsistent :
    (slot : ℕ) (s0 s : SchedulerState)
    → IsConsistent s0
    → Vacant slot s0 s
    → IsReady (task_at s slot)
    → IsConsistent (queue_task_slot slot s)
unfolding queue_task_slot
queue-IsConsistent slot s0 s h v r =
    let t = task_at s slot in
    let room : leb k_max_tasks slot ≡ false = ground (arith, v.below) in
    let after = pushed slot t.queue t s in
    let runs : (not t.used || (t.queued || (t.active || not t.enabled))) ≡ false =
      ground (arith, r.used, r.unqueued, r.idle, r.enabled) in
    rw (room, runs)
      (rebuilt slot s0 after h
        (then-SameElsewhere slot s0 s after v.same (pushed-SameElsewhere slot t.queue s t))
        (pushed-SlotOk slot t.queue s0 s t h v refl r))

empty_slot : SlotState no_task false 0 0
empty_slot = record {
  in_normal = refl;
  in_priority = refl;
  is_active = refl;
  is_used = refl;
  not_both = refl;
  may_run = refl;
  placed = refl;
}

-- Clearing a vacant slot.
pub clear-IsConsistent :
    (slot : ℕ) (s0 s : SchedulerState)
    → IsConsistent s0
    → Vacant slot s0 s
    → IsConsistent (clear_task_slot slot s)
unfolding clear_task_slot
clear-IsConsistent slot s0 s h v =
    let room : leb k_max_tasks slot ≡ false = ground (arith, v.below) in
    let after = record s { tasks = set s.tasks slot no_task } in
    simp room (
      rebuilt slot s0 after h
        (then-SameElsewhere slot s0 s after v.same (set-SameElsewhere slot s no_task))
        (SlotState-same
          (get_or-set_self s.tasks slot no_task no_task
            (omega (arith, v.below, v.same.size, h.size)))
          v.inactive v.no_normal v.no_priority empty_slot))

-- A slot that is not active is vacant once it is removed from the queues.
pub remove-Vacant :
    (slot : ℕ) (s : SchedulerState)
    → IsConsistent s
    → slot < k_max_tasks
    → is_slot slot s.active_task_slot ≡ false
    → Vacant slot s (remove_slot_from_queues slot s)
unfolding remove_slot_from_queues
remove-Vacant slot s h lt idle =
    let here = h.slots slot in
    record {
      same = remove_slot_from_queues-SameElsewhere slot s lt;
      below = lt;
      no_normal = ground (arith, occurrences-remove slot slot s.normal_queue, here.in_normal);
      no_priority = ground (arith, occurrences-remove slot slot s.priority_queue, here.in_priority);
      inactive = idle;
    }
