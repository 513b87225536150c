-- ===== src/Scheduler/Requeued.antt =====
-- The change of a task's queue in cs_scheduler_support.cpp, and the requests of cs_scheduler.cpp that
-- use it, keep the slots in order.
use arachnopod.Base.{ℕ, ◌<◌, true, false, not, ◌&&◌, ◌||◌}
use arachnopod.Base.{◌≡◌, inl, inr, Bool-cases, refl, ◌∙◌, arith, ltb, leb}
use arachnopod.Base.{length, length-set, get_or-set_self}
use arachnopod.Scheduler.Types.{QueueClass}
use arachnopod.Scheduler.State.{no_task, SchedulerState, task_at, k_max_tasks}
use arachnopod.Scheduler.Queues.{remove_slot_from_queues, queue_task_slot}
use arachnopod.Scheduler.Tasks.{
  is_slot, same_queue, dequeued, with_queue, queue_if_ready, update_task_queue_class,
}
use arachnopod.Scheduler.Consistent.{IsConsistent, set-SameElsewhere, then-SameElsewhere}
use arachnopod.Scheduler.Placing.{Vacant, IsReady, queue-IsConsistent, remove-Vacant}
use arachnopod.Scheduler.Requests.{task-IsConsistent}

removed_task :
    (slot : ℕ) (s : SchedulerState)
    → length s.tasks ≡ k_max_tasks
    → slot < k_max_tasks
    → (task_at (remove_slot_from_queues slot s) slot ≡ record (task_at s slot) { queued = false })
      × (length (remove_slot_from_queues slot s).tasks ≡ k_max_tasks)
unfolding remove_slot_from_queues
removed_task slot s len lt =
    let t = record (task_at s slot) { queued = false } in
    let below : ltb slot k_max_tasks ≡ true = ground arith in
    rw below (get_or-set_self s.tasks slot t no_task (omega arith), length-set s.tasks slot t ∙ len)

-- A queued task goes to the other queue.
requeued :
    (slot : ℕ) (q : QueueClass) (s : SchedulerState)
    → IsConsistent s
    → slot < k_max_tasks
    → (task_at s slot).queued ≡ true
    → let s2 = with_queue slot q (remove_slot_from_queues slot s) in
      Vacant slot s s2 × IsReady (task_at s2 slot)
unfolding with_queue
requeued slot q s h lt e =
    let s1 = remove_slot_from_queues slot s in
    let (t1, len) = removed_task slot s h.size lt in
    let t2 = record (task_at s1 slot) { queue = q } in
    let ok = h.slots slot in
    let idle : is_slot slot s.active_task_slot ≡ false =
      ground (arith, ok.is_active, ok.not_both, e) in
    let v = remove-Vacant slot s h lt idle in
    (
      record {
        same =
            then-SameElsewhere slot s s1 (with_queue slot q s1) v.same
              (set-SameElsewhere slot s1 t2);
        below = lt;
        no_normal = v.no_normal;
        no_priority = v.no_priority;
        inactive = v.inactive;
      },
      rw (get_or-set_self s1.tasks slot t2 no_task (omega (arith, len)), t1)
          (record {
            used = ground (arith, ok.is_used, e);
            unqueued = refl;
            idle = ground (arith, ok.not_both, e);
            enabled = ground (arith, ok.may_run, e);
            placed = ground (arith, ok.placed, ok.is_used, e);
          }),
    )

queue_if_ready-queue :
    (slot : ℕ) (s : SchedulerState)
    → IsReady (task_at s slot)
    → queue_if_ready slot s ≡ queue_task_slot slot s
unfolding queue_if_ready
queue_if_ready-queue slot s r =
    let go : (not (task_at s slot).active && (task_at s slot).enabled) ≡ true =
      ground (arith, r.idle, r.enabled) in
    rw go refl

-- A queued task is dequeued, changed and queued.
update_queued :
    (slot : ℕ) (q : QueueClass) (s : SchedulerState)
    → IsConsistent s
    → slot < k_max_tasks
    → (task_at s slot).queued ≡ true
    → IsConsistent (queue_if_ready slot (with_queue slot q (dequeued slot s)))
unfolding dequeued
update_queued slot q s h lt e =
    let s2 = with_queue slot q (remove_slot_from_queues slot s) in
    let (v, r) = requeued slot q s h lt e in
    rw e (rw (queue_if_ready-queue slot s2 r) (queue-IsConsistent slot s s2 h v r))

-- A task that is not queued is the active one: only its class changes.
update_active :
    (slot : ℕ) (q : QueueClass) (s : SchedulerState)
    → IsConsistent s
    → slot < k_max_tasks
    → (task_at s slot).used ≡ true
    → (task_at s slot).queued ≡ false
    → IsConsistent (queue_if_ready slot (with_queue slot q (dequeued slot s)))
unfolding dequeued with_queue queue_if_ready
update_active slot q s h lt u e =
    let t = record (task_at s slot) { queue = q } in
    let ok = h.slots slot in
    let here = get_or-set_self s.tasks slot t no_task (omega (arith, lt, h.size)) in
    let stay : (not t.active && t.enabled) ≡ false = ground (arith, ok.is_used, e, u) in
    rw e (
      rw here (
        rw stay (
          task-IsConsistent slot s t h lt (record {
            in_normal = ground (arith, ok.in_normal, e);
            in_priority = ground (arith, ok.in_priority, e);
            is_active = ok.is_active;
            is_used = ok.is_used;
            not_both = ok.not_both;
            may_run = ok.may_run;
            placed = ok.placed;
          }))))

pub update_task_queue_class-IsConsistent :
    (slot : ℕ) (q : QueueClass) (s : SchedulerState)
    → IsConsistent s
    → slot < k_max_tasks
    → IsConsistent (update_task_queue_class slot q s)
unfolding update_task_queue_class
update_task_queue_class-IsConsistent slot q s h lt =
    let room : leb k_max_tasks slot ≡ false = ground arith in
    let t = task_at s slot in
    elim (Bool-cases (not t.used || same_queue t.queue q)) [
      | inl e ↦ rw (room, e) h
      | inr e ↦ elim (Bool-cases t.queued) [
        | inl f ↦ rw (room, e) (update_queued slot q s h lt f)
        | inr f ↦ rw (room, e) (update_active slot q s h lt (ground (arith, e)) f)
      ]
    ]
