-- ===== src/Scheduler/Activated.antt =====
-- `activate_next_task` of cs_scheduler_support.cpp keeps the slots in order, and leaves no task waiting
-- while none is active.
use arachnopod.Base.{ℕ, true, false, not, ◌||◌, none, some, []}
use arachnopod.Base.{◌≡◌, ◌⊎◌, inl, inr, refl, ap, ◌∙◌, arith, leb}
use arachnopod.Base.{set, length-set, get_or-set_self, get_or-set_ne}
use arachnopod.Scheduler.State.{Task, no_task, SchedulerState, task_at, k_max_tasks}
use arachnopod.Scheduler.Queues.{pop_next_task_slot}
use arachnopod.Scheduler.Tasks.{is_slot, has_node, activate_task, activate_next_task}
use arachnopod.Scheduler.Consistent.{occurrences, SlotState, SlotState-same, IsConsistent, rebuilt}
use arachnopod.Scheduler.Popping.{pop-Outcome}
use arachnopod.Scheduler.Taken.{Taken}

active_SlotState :
    (t : Task)
    → t.used ≡ true
    → t.enabled ≡ true
    → has_node t.node ≡ true
    → SlotState (record t { queued = false; active = true; exchange_armed = false }) true 0 0
active_SlotState t u e n = record {
  in_normal = refl;
  in_priority = refl;
  is_active = refl;
  is_used = u;
  not_both = refl;
  may_run = refl;
  placed = ground (arith, n);
}

-- The slot that was taken becomes the active one.
activate_task-IsConsistent :
    (s s' : SchedulerState) (slot : ℕ)
    → IsConsistent s
    → Taken s slot s'
    → s.active_task_slot ≡ none
    → IsConsistent (activate_task slot s') × ((activate_task slot s').active_task_slot ≡ some slot)
unfolding activate_task
activate_task-IsConsistent s s' slot h k e =
    let q = k.from_queue in
    let v = k.vacant in
    let t = task_at s slot in
    let ok = h.slots slot in
    let node : has_node t.node ≡ true = ground (arith, ok.placed, q.valid) in
    let room : leb k_max_tasks slot ≡ false = ground (arith, q.below) in
    let runs : (not (task_at s' slot).used
          || (not (task_at s' slot).enabled || not (has_node (task_at s' slot).node)))
        ≡ false =
      rw k.task_is (ground (arith, q.valid, node)) in
    let idle : (task_at s' slot).active ≡ false =
      rw k.task_is (ground (arith, ok.not_both, q.queued)) in
    let mark : Task → Task = λ x. record x { active = true; exchange_armed = false } in
    let t' = record (task_at s' slot) { active = true; exchange_armed = false } in
    let after = record s' { tasks = set s'.tasks slot t'; active_task_slot = some slot } in
    let new = active_SlotState t (ground (arith, q.valid)) (ground (arith, q.valid)) node in
    rw (room, runs, idle)
      (
        rebuilt slot s after h
            (record {
              tasks = λ j ne. get_or-set_ne s'.tasks slot j t' no_task ne ∙ v.same.tasks j ne;
              active = λ j ne. rw e (ground arith);
              normals = v.same.normals;
              priorities = v.same.priorities;
              size = length-set s'.tasks slot t' ∙ v.same.size;
            })
            (SlotState-same
              (get_or-set_self s'.tasks slot t' no_task
                  (omega (arith, q.below, v.same.size, h.size))
                ∙ ap mark k.task_is)
              (ground arith) v.no_normal v.no_priority new),
        refl,
      )

no_tasks :
    (s : SchedulerState)
    → IsConsistent s
    → s.active_task_slot ≡ none
    → s.normal_queue ≡ []
    → s.priority_queue ≡ []
    → (j : ℕ) → (task_at s j).used ≡ false
unfolding occurrences
no_tasks s h a e f j =
    let ok = h.slots j in
    let none_active : is_slot j s.active_task_slot ≡ false = rw a refl in
    let no_normal : occurrences j s.normal_queue ≡ 0 = rw e refl in
    let no_priority : occurrences j s.priority_queue ≡ 0 = rw f refl in
    ground (arith, ok, none_active, no_normal, no_priority)

-- If the slots, the queued marks and the queues agree and no task is active, they agree after
-- `activate_next_task`; and then a task is active, unless no slot is in use at all.
pub activate_next_task_lem :
    (s : SchedulerState)
    → IsConsistent s
    → s.active_task_slot ≡ none
    → IsConsistent (activate_next_task s)
      × (((slot : ℕ) × ((activate_next_task s).active_task_slot ≡ some slot))
          ⊎ ((j : ℕ) → (task_at s j).used ≡ false))
unfolding activate_next_task
activate_next_task_lem s h a = elim (pop-Outcome s h) [
  | inl (e, ok, n, p) ↦ rw (activate_next_task, e) (ok, inr (no_tasks s h a n p))
  | inr (slot, e, k) ↦
      let (ok, active) = activate_task-IsConsistent s (pop_next_task_slot s).1 slot h k a in
      rw (activate_next_task, e) (ok, inl (slot, active))
]
