-- ===== src/Scheduler/Popping.antt =====
-- What `pop_next_task_slot` of cs_scheduler_support.cpp takes from a consistent state.
use arachnopod.Base.{ℕ, Bool, true, false, not, ◌&&◌, ◌||◌, Option, none, some, List, [], ◌∷◌}
use arachnopod.Base.{◌≡◌, ◌⊎◌, inl, inr, Bool-cases, refl, ◌∙◌, arith, ltb, leb}
use arachnopod.Scheduler.State.{SchedulerState, k_max_tasks, k_priority_burst_limit}
use arachnopod.Scheduler.Queues.{
  pop_valid, is_empty, pop_late_priority, pop_normal, pop_next_task_slot,
}
use arachnopod.Scheduler.Consistent.{IsConsistent}
use arachnopod.Scheduler.Taken.{
  InQueue, in_queue, head_of_normal, head_of_priority, taken, Taken, after_normal, after_priority,
  normal-Taken, priority-Taken,
}

pop_valid-head :
    (s : SchedulerState) (slot : ℕ) (rest : List ℕ)
    → InQueue s slot
    → pop_valid (slot ∷ rest) s.tasks
      ≡ record { slot = some slot; queue = rest; tasks = taken slot s }
unfolding pop_valid
pop_valid-head s slot rest q =
    let room : leb k_max_tasks slot ≡ false = ground (arith, q.below) in rw (room, q.valid) refl

abbrev pub Outcome : SchedulerState → Option ℕ × SchedulerState → Type 0
Outcome s r =
    ((r.0 ≡ none) × IsConsistent r.1 × (s.normal_queue ≡ []) × (s.priority_queue ≡ []))
    ⊎ ((slot : ℕ) × (r.0 ≡ some slot) × Taken s slot r.1)

pop_empty :
    (s : SchedulerState)
    → s.normal_queue ≡ []
    → s.priority_queue ≡ []
    → pop_next_task_slot s ≡ (none, record s { priority_burst = 0 })
unfolding pop_next_task_slot pop_normal pop_late_priority pop_valid
pop_empty s e f = simp (e, f, pop_normal, pop_late_priority)

pop_from_normal :
    (have : Bool) (s : SchedulerState) (slot : ℕ) (rest : List ℕ)
    → IsConsistent s
    → s.normal_queue ≡ slot ∷ rest
    → pop_normal have s ≡ (some slot, after_normal rest slot s)
unfolding pop_normal
pop_from_normal have s slot rest h e =
    let head : pop_valid s.normal_queue s.tasks
        ≡ record { slot = some slot; queue = rest; tasks = taken slot s } =
      rw e (pop_valid-head s slot rest (in_queue s slot h (head_of_normal s slot rest h e).0)) in
    rw (pop_normal, head) (rw head refl)

pop_from_priority :
    (s : SchedulerState) (slot : ℕ) (rest : List ℕ)
    → IsConsistent s
    → s.priority_queue ≡ slot ∷ rest
    → (not (is_empty s.normal_queue) ≡ false) ⊎ (ltb s.priority_burst k_priority_burst_limit ≡ true)
    → pop_next_task_slot s ≡ (some slot, after_priority rest slot s)
unfolding pop_next_task_slot
pop_from_priority s slot rest h e first =
    let head : pop_valid s.priority_queue s.tasks
        ≡ record { slot = some slot; queue = rest; tasks = taken slot s } =
      rw e (pop_valid-head s slot rest (in_queue s slot h (head_of_priority s slot rest h e).0)) in
    let waits : (not (is_empty s.priority_queue)
          && (not (not (is_empty s.normal_queue)) || ltb s.priority_burst k_priority_burst_limit))
        ≡ true =
      rw e (ground (arith, first)) in
    rw (pop_next_task_slot, head, waits) (rw head refl)

-- The priority queue is not asked first.
pop_normal_first :
    (s : SchedulerState)
    → (not (is_empty s.priority_queue)
        && (not (not (is_empty s.normal_queue)) || ltb s.priority_burst k_priority_burst_limit))
      ≡ false
    → pop_next_task_slot s ≡ pop_normal (not (is_empty s.priority_queue)) s
unfolding pop_next_task_slot
pop_normal_first s e = rw e refl

idle-IsConsistent :
    (s : SchedulerState) → IsConsistent s → IsConsistent (record s { priority_burst = 0 })
idle-IsConsistent s h = record { slots = h.slots; size = h.size }

pub pop-Outcome : (s : SchedulerState) → IsConsistent s → Outcome s (pop_next_task_slot s)
pop-Outcome s h = go s.normal_queue s.priority_queue refl refl
  where
    first :
        (n : ℕ) (ns : List ℕ)
        → s.normal_queue ≡ n ∷ ns
        → (not (is_empty s.priority_queue)
            && (not (not (is_empty s.normal_queue)) || ltb s.priority_burst k_priority_burst_limit))
          ≡ false
        → Outcome s (pop_next_task_slot s)
    first n ns e c =
        rw (pop_normal_first s c ∙ pop_from_normal (not (is_empty s.priority_queue)) s n ns h e)
          (inr (n, refl, normal-Taken s n ns h e))

    go :
        (normals priorities : List ℕ)
        → s.normal_queue ≡ normals
        → s.priority_queue ≡ priorities
        → Outcome s (pop_next_task_slot s)
    go [] [] e f = rw (pop_empty s e f) (inl (refl, idle-IsConsistent s h, e, f))
    go (n ∷ ns) [] e f = first n ns e (rw f refl)
    go [] (p ∷ ps) e f =
        rw (pop_from_priority s p ps h f (inl (rw e refl)))
          (inr (p, refl, priority-Taken s p ps h f))
    go (n ∷ ns) (p ∷ ps) e f = elim (Bool-cases (ltb s.priority_burst k_priority_burst_limit)) [
      | inl b ↦ rw (pop_from_priority s p ps h f (inr b)) (inr (p, refl, priority-Taken s p ps h f))
      | inr b ↦ first n ns e (rw (e, f, b) refl)
    ]
