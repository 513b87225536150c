-- ===== src/Scheduler/Examples.antt =====
-- Concrete runs of the scheduler of CS.
use arachnopod.Base.{ℕ, none, false, ◌<◌, true, [], ◌∷◌, ◌≡◌, ◌⊎◌, refl, arith, length, replicate}
use arachnopod.Scheduler.Types.{normal, priority, data_request}
use arachnopod.Scheduler.State.{
  SchedulerState, task_at, no_task, k_max_tasks, k_invalid_task_id, reset_tasks,
}
use arachnopod.Scheduler.Queues.{new_task, add_task}
use arachnopod.Scheduler.Slots.{Request, Added, add_task_lem}
use arachnopod.Scheduler.Fairness.{IsReady, IsNext, popped_within, normal_queue_served}

reset_tasks-length : length (reset_tasks.tasks) ≡ k_max_tasks
unfolding reset_tasks
reset_tasks-length = refl

abbrev poll_pss : Request
poll_pss = record {
  node = 1;
  kind = data_request;
  queue = priority;
  periodic = true;
  command_id = 0;
  has_value = false;
  staged = false;
}

add_task_lem_example :
    let added = add_task 1 data_request priority true 0 false false reset_tasks in
    ((added.0 ≡ k_invalid_task_id)
      × (added.1 ≡ reset_tasks)
      × ((j : ℕ) → j < k_max_tasks → (task_at reset_tasks j).used ≡ true))
    ⊎ ((slot : ℕ) × Added reset_tasks added.1 poll_pss added.0 slot)
add_task_lem_example = add_task_lem poll_pss reset_tasks reset_tasks-length

-- Two tasks of priority and a normal one, after a burst of two.
abbrev busy : SchedulerState
busy = record {
  tasks =
      new_task 0 data_request priority true 0 false false 1
      ∷ new_task 1 data_request priority true 0 false false 2
      ∷ new_task 2 data_request normal true 0 false false 3
      ∷ replicate 29 no_task;
  next_task_id = 4;
  active_task_slot = none;
  normal_queue = 2 ∷ [];
  priority_queue = 0 ∷ 1 ∷ [];
  priority_burst = 2;
}

busy-IsNext : IsNext 2 2 busy
unfolding IsNext IsReady
busy-IsNext = (([], refl), (omega arith, refl, refl, refl), refl)

normal_queue_served_example : popped_within 2 2 busy ≡ true
normal_queue_served_example = normal_queue_served 1 2 2 busy busy-IsNext (omega arith)
