-- ===== src/Scheduler/Taken.antt =====
-- The head of a queue of a consistent state of cs_scheduler_support.cpp, and the state without it.
use arachnopod.Base.{ℕ, zero, suc, ◌+◌, ◌≤◌, ◌<◌, true, false, ◌&&◌, List, [], ◌∷◌, u64}
use arachnopod.Base.{◌≡◌, inl, inr, Bool-cases, refl, arith, ltb}
use arachnopod.Base.{get_or, set, length, length-set, get_or-set_self, get_or-set_ne}
use arachnopod.Scheduler.State.{Task, no_task, SchedulerState, task_at, k_max_tasks}
use arachnopod.Scheduler.Queues.{is_priority}
use arachnopod.Scheduler.Consistent.{occurrences, IsConsistent}
use arachnopod.Scheduler.Placing.{Vacant}

pub get_or_beyond : (ts : List Task) (i : ℕ) → length ts ≤ i → get_or ts i no_task ≡ no_task
get_or_beyond [] i h = refl
get_or_beyond (t ∷ ts) zero h = absurd (omega arith)
get_or_beyond (t ∷ ts) (suc i) h = get_or_beyond ts i (omega arith)

-- A slot that stands in a queue of a consistent state is below 32, and may run.
pub record InQueue (s : SchedulerState) (slot : ℕ) : Type 0 where
  pub below : slot < k_max_tasks
  pub queued : (task_at s slot).queued ≡ true
  pub valid : ((task_at s slot).used && (task_at s slot).enabled) ≡ true

pub in_queue :
    (s : SchedulerState) (slot : ℕ)
    → IsConsistent s
    → (task_at s slot).queued ≡ true
    → InQueue s slot
in_queue s slot h e =
    let ok = h.slots slot in
    record {
      below = elim (Bool-cases (ltb slot k_max_tasks)) [
        | inl l ↦ ground arith
        | inr l ↦ absurd (ground (arith, e, get_or_beyond s.tasks slot, h.size))
      ];
      queued = e;
      valid = ground (arith, ok.is_used, ok.may_run, e);
    }

pub head_of_normal :
    (s : SchedulerState) (slot : ℕ) (rest : List ℕ)
    → IsConsistent s
    → s.normal_queue ≡ slot ∷ rest
    → ((task_at s slot).queued ≡ true)
      × (is_priority (task_at s slot).queue ≡ false)
      × (occurrences slot rest ≡ 0)
unfolding occurrences
head_of_normal s slot rest h e =
    let ok = (h.slots slot).in_normal in
    let one : occurrences slot s.normal_queue ≡ 1 + occurrences slot rest = rw e (ground arith) in
    ground (arith, ok, one)

pub head_of_priority :
    (s : SchedulerState) (slot : ℕ) (rest : List ℕ)
    → IsConsistent s
    → s.priority_queue ≡ slot ∷ rest
    → ((task_at s slot).queued ≡ true)
      × (is_priority (task_at s slot).queue ≡ true)
      × (occurrences slot rest ≡ 0)
unfolding occurrences
head_of_priority s slot rest h e =
    let ok = (h.slots slot).in_priority in
    let one : occurrences slot s.priority_queue ≡ 1 + occurrences slot rest = rw e (ground arith) in
    ground (arith, ok, one)

abbrev pub taken : ℕ → SchedulerState → List Task
taken slot s = set s.tasks slot (record (task_at s slot) { queued = false })

-- What `pop_next_task_slot` gives: nothing, or a slot that is now in no queue.
pub record Taken (s : SchedulerState) (slot : ℕ) (s' : SchedulerState) : Type 0 where
  pub from_queue : InQueue s slot
  pub vacant : Vacant slot s s'
  pub task_is : task_at s' slot ≡ record (task_at s slot) { queued = false }
  pub active_is : s'.active_task_slot ≡ s.active_task_slot

abbrev pub after_normal : List ℕ → ℕ → SchedulerState → SchedulerState
after_normal rest slot s = record s {
  normal_queue = rest;
  tasks = taken slot s;
  priority_burst = 0;
}

abbrev pub after_priority : List ℕ → ℕ → SchedulerState → SchedulerState
after_priority rest slot s = record s {
  priority_queue = rest;
  tasks = taken slot s;
  priority_burst = u64 (s.priority_burst + 1);
}

pub normal-Taken :
    (s : SchedulerState) (slot : ℕ) (rest : List ℕ)
    → IsConsistent s
    → s.normal_queue ≡ slot ∷ rest
    → Taken s slot (after_normal rest slot s)
unfolding occurrences
normal-Taken s slot rest h e =
    let (queued, class, gone) = head_of_normal s slot rest h e in
    let q = in_queue s slot h queued in
    let ok = h.slots slot in
    let t = record (task_at s slot) { queued = false } in
    record {
      from_queue = q;
      vacant = record {
        same = record {
          tasks = λ j ne. get_or-set_ne s.tasks slot j t no_task ne;
          active = λ j ne. refl;
          normals = λ j ne. rw e (ground arith);
          priorities = λ j ne. refl;
          size = length-set s.tasks slot t;
        };
        below = q.below;
        no_normal = gone;
        no_priority = ground (arith, ok.in_priority, class);
        inactive = ground (arith, ok.is_active, ok.not_both, queued);
      };
      task_is = get_or-set_self s.tasks slot t no_task (omega (arith, q.below, h.size));
      active_is = refl;
    }

pub priority-Taken :
    (s : SchedulerState) (slot : ℕ) (rest : List ℕ)
    → IsConsistent s
    → s.priority_queue ≡ slot ∷ rest
    → Taken s slot (after_priority rest slot s)
unfolding occurrences
priority-Taken s slot rest h e =
    let (queued, class, gone) = head_of_priority s slot rest h e in
    let q = in_queue s slot h queued in
    let ok = h.slots slot in
    let t = record (task_at s slot) { queued = false } in
    record {
      from_queue = q;
      vacant = record {
        same = record {
          tasks = λ j ne. get_or-set_ne s.tasks slot j t no_task ne;
          active = λ j ne. refl;
          normals = λ j ne. refl;
          priorities = λ j ne. rw e (ground arith);
          size = length-set s.tasks slot t;
        };
        below = q.below;
        no_normal = ground (arith, ok.in_normal, class);
        no_priority = gone;
        inactive = ground (arith, ok.is_active, ok.not_both, queued);
      };
      task_is = get_or-set_self s.tasks slot t no_task (omega (arith, q.below, h.size));
      active_is = refl;
    }
