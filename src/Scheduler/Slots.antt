-- ===== src/Scheduler/Slots.antt =====
-- The invariant of the task slots of cs_scheduler_support.cpp, and the addition of a task.
use arachnopod.Base.{ℕ, zero, suc, ◌+◌, ◌≤◌, ◌<◌, Bool, true, false}
use arachnopod.Base.{
  Option, none, some, List, [], ◌∷◌, ◌++◌, ◌≡◌, Bool-cases, refl, ◌≢◌, ◌⊎◌, inl, inr, arith, ◌==◌,
}
use arachnopod.Base.{
  if◌then◌else◌, get_or, set, length, length-set, get_or-set_self, get_or-set_ne, u32,
}
use arachnopod.Base.{◌%◌, ◌^◌, ◌∙◌, ap, leb}
use arachnopod.Scheduler.Types.{QueueClass, CompletionKind}
use arachnopod.Scheduler.State.{
  Task, no_task, SchedulerState, task_at, k_max_tasks, k_invalid_task_id,
}
use arachnopod.Scheduler.Queues.{
  find_free, alloc_task_slot, add_task, queue_task_slot, is_priority, place_task, new_task,
  push_slot,
}

-- A search that finds a slot finds the first that is not in use; one that finds none has met only
-- slots in use.
pub find_free_lem :
    (left i : ℕ) (tasks : List Task)
    → ((slot : ℕ)
        → find_free left i tasks ≡ some slot
        → (i ≤ slot) × (slot < i + left) × ((get_or tasks slot no_task).used ≡ false))
      × (find_free left i tasks ≡ none
          → (j : ℕ) → i ≤ j
          → j < i + left
          → (get_or tasks j no_task).used ≡ true)
unfolding find_free
find_free_lem zero i tasks = (λ slot e. ground arith, λ e j a b. absurd (omega arith))
find_free_lem (suc left) i tasks =
    let later = find_free_lem left (i + 1) tasks in
    (
      λ slot e. ground (arith, later.0 slot),
      λ e j a b. elim (Bool-cases (i == j)) [
        | inl same ↦ ground (arith, later.1)
        | inr other ↦ later.1 (ground arith) j (ground arith) (omega arith)
      ],
    )

-- What a client asks `add_task` for.
pub record Request : Type 0 where
  pub node : ℕ
  pub kind : CompletionKind
  pub queue : QueueClass
  pub periodic : Bool
  pub command_id : ℕ
  pub has_value : Bool
  pub staged : Bool

-- What `add_task` has done with the slot `slot`, with the id `id`, for the request `r`.
pub record Added (s s' : SchedulerState) (r : Request) (id slot : ℕ) : Type 0 where
  pub below : slot < k_max_tasks
  pub was_free : (task_at s slot).used ≡ false
  pub placed : task_at s' slot ≡ record {
    used = true;
    queued = true;
    active = false;
    exchange_armed = false;
    periodic = r.periodic;
    enabled = true;
    use_staged_window = r.staged;
    id = id;
    kind = r.kind;
    queue = r.queue;
    node = some r.node;
    command_id = r.command_id;
    has_value = r.has_value;
  }
  pub given : id ≡ s.next_task_id
  pub next_id : s'.next_task_id ≡ (s.next_task_id + 1) % 2 ^ 32
  pub size : length s'.tasks ≡ length s.tasks
  pub same_active : s'.active_task_slot ≡ s.active_task_slot
  pub same_burst : s'.priority_burst ≡ s.priority_burst
  pub others : (j : ℕ) → slot ≢ j → task_at s' j ≡ task_at s j
  pub normals :
      s'.normal_queue
      ≡ (if is_priority r.queue then s.normal_queue else s.normal_queue ++ (slot ∷ []))
  pub priorities :
      s'.priority_queue
      ≡ (if is_priority r.queue then s.priority_queue ++ (slot ∷ []) else s.priority_queue)

abbrev task_of : Request → ℕ → Task
task_of r id = new_task r.node r.kind r.queue r.periodic r.command_id r.has_value r.staged id

queue_task_slot-Added :
    (s : SchedulerState) (slot : ℕ) (r : Request)
    → length s.tasks ≡ k_max_tasks
    → slot < k_max_tasks
    → (task_at s slot).used ≡ false
    → Added s (place_task (some slot) (task_of r s.next_task_id) s).1 r s.next_task_id slot
unfolding queue_task_slot
queue_task_slot-Added s slot r len lt free =
    let task = task_of r s.next_task_id in
    let s1 = record s { next_task_id = u32 (s.next_task_id + 1); tasks = set s.tasks slot task } in
    let here : task_at s1 slot ≡ task =
      get_or-set_self s.tasks slot task no_task (omega (arith, len)) in
    let t' = record (task_at s1 slot) { queued = true } in
    let long = length-set s.tasks slot task in
    let room : leb k_max_tasks slot ≡ false = ground arith in
    let placed : queue_task_slot slot s1
        ≡ record (push_slot slot r.queue s1) { tasks = set s1.tasks slot t' } =
      rw (room, here) refl in
    let again = get_or-set_self s1.tasks slot t' no_task (omega (arith, len, long)) in
    let mark : Task → Task = λ x. record x { queued = true } in
    rw placed (record {
      below = lt;
      was_free = free;
      placed = again ∙ ap mark here;
      given = refl;
      next_id = ground arith;
      size = length-set s1.tasks slot t' ∙ long;
      same_active = ground arith;
      same_burst = ground arith;
      others = λ j ne.
          get_or-set_ne s1.tasks slot j t' no_task ne
          ∙ get_or-set_ne s.tasks slot j task no_task ne;
      normals = ground arith;
      priorities = ground arith;
    })

-- A request for a task is refused, with the id 0 and without effect, only when all 32 slots are in
-- use. Otherwise a slot that was free holds exactly the task asked for, enabled, queued and not
-- active, under the next id, which is returned and then counted on, wrapped to 32 bits; the slot is
-- at the end of the queue asked for; and no other task, and not the other queue, the active slot or
-- the burst, is changed.
pub add_task_lem :
    (r : Request) (s : SchedulerState)
    → length s.tasks ≡ k_max_tasks
    → let added = add_task r.node r.kind r.queue r.periodic r.command_id r.has_value r.staged s in
      ((added.0 ≡ k_invalid_task_id)
        × (added.1 ≡ s)
        × ((j : ℕ) → j < k_max_tasks → (task_at s j).used ≡ true))
      ⊎ ((slot : ℕ) × Added s added.1 r added.0 slot)
unfolding add_task alloc_task_slot
add_task_lem r s len = go (find_free k_max_tasks 0 s.tasks) refl
  where
    go :
        (o : Option ℕ)
        → find_free k_max_tasks 0 s.tasks ≡ o
        → let added = place_task o (task_of r s.next_task_id) s in
          ((added.0 ≡ k_invalid_task_id)
            × (added.1 ≡ s)
            × ((j : ℕ) → j < k_max_tasks → (task_at s j).used ≡ true))
          ⊎ ((slot : ℕ) × Added s added.1 r added.0 slot)
    go none e =
        inl (refl, refl, λ j lt. (find_free_lem k_max_tasks 0 s.tasks).1 e j (omega arith) lt)
    go (some slot) e =
        let (above, below, free) = (find_free_lem k_max_tasks 0 s.tasks).0 slot e in
        inr (slot, queue_task_slot-Added s slot r len below free)
