-- ===== src/Scheduler/Consistent.antt =====
-- The slots, the queued marks and the queues of cs_scheduler_support.cpp agree.
use arachnopod.Base.{
  ℕ, ◌+◌, ◌-◌, ◌<◌, Bool, true, false, not, ◌&&◌, ◌||◌, none, some, List, [], ◌∷◌, ◌++◌,
}
use arachnopod.Base.{◌≡◌, ◌≢◌, inl, inr, Bool-cases, refl, ◌∙◌, arith, ltb, ◌==◌, if◌then◌else◌}
use arachnopod.Base.{set, length, length-set, get_or-set_ne}
use arachnopod.Scheduler.Types.{QueueClass, normal, priority}
use arachnopod.Scheduler.State.{Task, no_task, SchedulerState, task_at, k_max_tasks}
use arachnopod.Scheduler.Queues.{
  is_priority, push_slot, remove_slot_from_queue, remove_slot_from_queues,
}
use arachnopod.Scheduler.Tasks.{is_slot, has_node}

-- How often a slot stands in a queue.
unfoldable pub occurrences : ℕ → List ℕ → ℕ
occurrences slot [] = 0
occurrences slot (x ∷ xs) = (if x == slot then 1 else 0) + occurrences slot xs

pub occurrences-append :
    (slot x : ℕ) (xs : List ℕ)
    → occurrences slot (xs ++ (x ∷ [])) ≡ occurrences slot xs + (if x == slot then 1 else 0)
unfolding occurrences
occurrences-append slot x [] = ground arith
occurrences-append slot x (y ∷ ys) = ground (arith, occurrences-append slot x ys)

pub occurrences-remove :
    (slot x : ℕ) (xs : List ℕ)
    → occurrences slot (remove_slot_from_queue x xs)
      ≡ (if x == slot then occurrences slot xs - 1 else occurrences slot xs)
unfolding occurrences remove_slot_from_queue
occurrences-remove slot x [] = ground arith
occurrences-remove slot x (y ∷ ys) = ground (arith, occurrences-remove slot x ys)

-- A task that is queued stands once in the queue of its class, and else in none; it is used exactly
-- if it is queued or active, and not both; a queued task is enabled, and a used one has a node.
-- `active` says whether its slot is the active one.
pub record SlotState (t : Task) (active : Bool) (normals priorities : ℕ) : Type 0 where
  pub in_normal : normals ≡ (if t.queued && not (is_priority t.queue) then 1 else 0)
  pub in_priority : priorities ≡ (if t.queued && is_priority t.queue then 1 else 0)
  pub is_active : t.active ≡ active
  pub is_used : t.used ≡ (t.queued || t.active)
  pub not_both : (t.queued && t.active) ≡ false
  pub may_run : (t.queued && not t.enabled) ≡ false
  pub placed : (t.used && not (has_node t.node)) ≡ false

pub SlotState-same :
    {t t' : Task} {a a' : Bool} {n n' p p' : ℕ}
    → t' ≡ t
    → a' ≡ a
    → n' ≡ n
    → p' ≡ p
    → SlotState t a n p
    → SlotState t' a' n' p'
SlotState-same e f g h x = rw (e, f, g, h) x

abbrev pub SlotOk : SchedulerState → ℕ → Type 0
SlotOk s j =
    SlotState (task_at s j) (is_slot j s.active_task_slot) (occurrences j s.normal_queue)
      (occurrences j s.priority_queue)

-- All slots are in order, and there are 32.
pub record IsConsistent (s : SchedulerState) : Type 0 where
  pub slots : (j : ℕ) → SlotOk s j
  pub size : length s.tasks ≡ k_max_tasks

-- Two states that differ only in what belongs to one slot.
pub record SameElsewhere (slot : ℕ) (s s' : SchedulerState) : Type 0 where
  pub tasks : (j : ℕ) → slot ≢ j → task_at s' j ≡ task_at s j
  pub active : (j : ℕ) → slot ≢ j → is_slot j s'.active_task_slot ≡ is_slot j s.active_task_slot
  pub normals : (j : ℕ) → slot ≢ j → occurrences j s'.normal_queue ≡ occurrences j s.normal_queue
  pub priorities :
      (j : ℕ) → slot ≢ j → occurrences j s'.priority_queue ≡ occurrences j s.priority_queue
  pub size : length s'.tasks ≡ length s.tasks

-- A state is consistent if one slot is in order and all else is as in a consistent state.
pub rebuilt :
    (slot : ℕ) (s s' : SchedulerState)
    → IsConsistent s
    → SameElsewhere slot s s'
    → SlotOk s' slot
    → IsConsistent s'
rebuilt slot s s' h e here = record {
  size = e.size ∙ h.size;
  slots = λ j. elim (Bool-cases (slot == j)) [
    | inl same ↦ let eq : j ≡ slot = ground arith in rw eq here
    | inr other ↦
        let ne : slot ≢ j = ground arith in
        rw (e.tasks j ne, e.active j ne, e.normals j ne, e.priorities j ne) (h.slots j)
  ];
}

-- What belongs to another slot than `slot` after the operations that change one.
pub set-SameElsewhere :
    (slot : ℕ) (s : SchedulerState) (t : Task)
    → SameElsewhere slot s (record s { tasks = set s.tasks slot t })
set-SameElsewhere slot s t = record {
  tasks = λ j ne. get_or-set_ne s.tasks slot j t no_task ne;
  active = λ j ne. refl;
  normals = λ j ne. refl;
  priorities = λ j ne. refl;
  size = length-set s.tasks slot t;
}

pub then-SameElsewhere :
    (slot : ℕ) (a b c : SchedulerState)
    → SameElsewhere slot a b
    → SameElsewhere slot b c
    → SameElsewhere slot a c
then-SameElsewhere slot a b c e f = record {
  tasks = λ j ne. f.tasks j ne ∙ e.tasks j ne;
  active = λ j ne. f.active j ne ∙ e.active j ne;
  normals = λ j ne. f.normals j ne ∙ e.normals j ne;
  priorities = λ j ne. f.priorities j ne ∙ e.priorities j ne;
  size = f.size ∙ e.size;
}

pub activate-SameElsewhere :
    (slot : ℕ) (s : SchedulerState)
    → s.active_task_slot ≡ none
    → SameElsewhere slot s (record s { active_task_slot = some slot })
activate-SameElsewhere slot s e = record {
  tasks = λ j ne. refl;
  active = λ j ne. rw e (ground arith);
  normals = λ j ne. refl;
  priorities = λ j ne. refl;
  size = refl;
}

pub release-SameElsewhere :
    (slot : ℕ) (s : SchedulerState)
    → s.active_task_slot ≡ some slot
    → SameElsewhere slot s (record s { active_task_slot = none })
release-SameElsewhere slot s e = record {
  tasks = λ j ne. refl;
  active = λ j ne. rw e (ground arith);
  normals = λ j ne. refl;
  priorities = λ j ne. refl;
  size = refl;
}

pub remove_slot_from_queues-SameElsewhere :
    (slot : ℕ) (s : SchedulerState)
    → slot < k_max_tasks
    → SameElsewhere slot s (remove_slot_from_queues slot s)
unfolding remove_slot_from_queues
remove_slot_from_queues-SameElsewhere slot s lt =
    let t' = record (task_at s slot) { queued = false } in
    let below : ltb slot k_max_tasks ≡ true = ground arith in
    record {
      tasks = λ j ne. rw below (get_or-set_ne s.tasks slot j t' no_task ne);
      active = λ j ne. refl;
      normals = λ j ne. ground (arith, occurrences-remove j slot s.normal_queue);
      priorities = λ j ne. ground (arith, occurrences-remove j slot s.priority_queue);
      size = rw below (length-set s.tasks slot t');
    }

pub push_slot-SameElsewhere :
    (slot : ℕ) (queue : QueueClass) (s : SchedulerState)
    → SameElsewhere slot s (push_slot slot queue s)
push_slot-SameElsewhere slot priority s = record {
  tasks = λ j ne. refl;
  active = λ j ne. refl;
  normals = λ j ne. refl;
  priorities = λ j ne. ground (arith, occurrences-append j slot s.priority_queue);
  size = refl;
}
push_slot-SameElsewhere slot normal s = record {
  tasks = λ j ne. refl;
  active = λ j ne. refl;
  normals = λ j ne. ground (arith, occurrences-append j slot s.normal_queue);
  priorities = λ j ne. refl;
  size = refl;
}
