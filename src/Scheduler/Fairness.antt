-- ===== src/Scheduler/Fairness.antt =====
-- How long `pop_next_task_slot` of cs_scheduler_support.cpp can pass over the normal queue.
use arachnopod.Base.{ℕ, zero, suc, ◌+◌, ◌≤◌, ◌<◌, Bool, true, false, ◌||◌}
use arachnopod.Base.{Option, none, some, List, [], ◌∷◌, ◌≡◌, refl, ◌⊎◌, inl, inr, arith, ◌==◌}
use arachnopod.Base.{get_or, set, length, length-set, get_or-set_self, get_or-set_ne}
use arachnopod.Scheduler.State.{Task, no_task, SchedulerState, k_max_tasks, k_priority_burst_limit}
use arachnopod.Scheduler.Queues.{pop_valid, pop_normal, pop_next_task_slot, is_empty}

-- A slot of a task that is in use and enabled.
unfoldable pub IsReady : ℕ → List Task → Type 0
IsReady slot tasks =
    (slot < k_max_tasks)
    × (length tasks ≡ k_max_tasks)
    × ((get_or tasks slot no_task).used ≡ true)
    × ((get_or tasks slot no_task).enabled ≡ true)

-- Taking the mark `queued` off one task leaves every slot as ready as before.
IsReady-unqueue :
    (slot i : ℕ) (tasks : List Task)
    → IsReady slot tasks
    → IsReady slot (set tasks i (record (get_or tasks i no_task) { queued = false }))
unfolding IsReady
IsReady-unqueue slot i tasks h =
    let t' = record (get_or tasks i no_task) { queued = false } in
    ground (
      arith,
      length-set tasks i t',
      get_or-set_self tasks i t' no_task,
      get_or-set_ne tasks i slot t' no_task,
    )

IsReady-pop_valid :
    (slot : ℕ) (queue : List ℕ) (tasks : List Task)
    → IsReady slot tasks
    → IsReady slot (pop_valid queue tasks).tasks
unfolding pop_valid
IsReady-pop_valid slot [] tasks h = h
IsReady-pop_valid slot (i ∷ queue) tasks h =
    let tasks' = set tasks i (record (get_or tasks i no_task) { queued = false }) in
    let h' = IsReady-unqueue slot i tasks h in
    ground (arith, h', IsReady-pop_valid slot queue tasks h, IsReady-pop_valid slot queue tasks' h')

pop_valid-ready :
    (slot : ℕ) (queue : List ℕ) (tasks : List Task)
    → IsReady slot tasks
    → (pop_valid (slot ∷ queue) tasks).slot ≡ some slot
unfolding pop_valid IsReady
pop_valid-ready slot queue tasks h = ground arith

pop_normal-ready :
    (b : Bool) (s : SchedulerState) (slot : ℕ) (rest : List ℕ)
    → s.normal_queue ≡ slot ∷ rest
    → IsReady slot s.tasks
    → (pop_normal b s).0 ≡ some slot
unfolding pop_normal
pop_normal-ready b s slot rest e h =
    let ready : (pop_valid s.normal_queue s.tasks).slot ≡ some slot =
      rw e (pop_valid-ready slot rest s.tasks h) in
    ground (arith, ready)

-- A state in which the normal queue starts with a ready slot, and the burst is `b`.
unfoldable pub IsNext : ℕ → ℕ → SchedulerState → Type 0
IsNext slot b s =
    ((rest : List ℕ) × (s.normal_queue ≡ slot ∷ rest))
    × IsReady slot s.tasks
    × (s.priority_burst ≡ b)

pop_step :
    (s : SchedulerState) (slot b : ℕ)
    → IsNext slot b s
    → ((pop_next_task_slot s).0 ≡ some slot)
      ⊎ ((b < k_priority_burst_limit) × IsNext slot (b + 1) (pop_next_task_slot s).1)
unfolding pop_next_task_slot IsNext
pop_step s slot b h =
    let p = pop_valid s.priority_queue s.tasks in
    let kept = IsReady-pop_valid slot s.priority_queue s.tasks h.1 in
    let late = record s { priority_queue = p.queue; tasks = p.tasks } in
    let full : is_empty s.normal_queue ≡ false = rw h.0.1 refl in
    ground (
      arith,
      full,
      kept,
      pop_normal-ready true late slot h.0.0 h.0.1 kept,
      pop_normal-ready true s slot h.0.0 h.0.1 h.1,
      pop_normal-ready false s slot h.0.0 h.0.1 h.1,
    )

abbrev pub is_slot_of : ℕ → Option ℕ → Bool
is_slot_of slot none = false
is_slot_of slot (some i) = i == slot

-- Whether one of the next `k` calls of `pop_next_task_slot` returns `slot`.
unfoldable pub popped_within : ℕ → ℕ → SchedulerState → Bool
popped_within zero slot s = false
popped_within (suc k) slot s =
    let later = popped_within k slot (pop_next_task_slot s).1 in
    is_slot_of slot (pop_next_task_slot s).0 || later

is_slot_of_self : (slot : ℕ) (o : Option ℕ) → o ≡ some slot → is_slot_of slot o ≡ true
is_slot_of_self slot o e = ground arith

-- A ready task at the head of the normal queue is not passed over for long: with a burst of `b`
-- it is returned by one of the next 4 - b calls, by the very next one if `b` is 3 or more, whatever
-- is in the priority queue.
pub normal_queue_served :
    (k slot b : ℕ) (s : SchedulerState)
    → IsNext slot b s
    → k_priority_burst_limit ≤ b + k
    → popped_within (suc k) slot s ≡ true
unfolding popped_within
normal_queue_served zero slot b s h e = elim (pop_step s slot b h) [
  | inl got ↦ ground (arith, is_slot_of_self slot (pop_next_task_slot s).0 got)
  | inr wait ↦ absurd (omega (arith, wait.0))
]
normal_queue_served (suc k) slot b s h e = elim (pop_step s slot b h) [
  | inl got ↦ ground (arith, is_slot_of_self slot (pop_next_task_slot s).0 got)
  | inr wait ↦
      ground
        (arith, normal_queue_served k slot (b + 1) (pop_next_task_slot s).1 wait.1 (omega arith))
]
