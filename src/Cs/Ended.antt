-- ===== src/Cs/Ended.antt =====
-- The end of the active task in `finalize_active_task` keeps the slots in order.
use arachnopod.Base.{ℕ, ◌<◌, true, false, not, ◌&&◌, ◌||◌, none, some}
use arachnopod.Base.{◌≡◌, inl, inr, Bool-cases, refl, ap, sym, arith, ltb, leb}
use arachnopod.Base.{◌≢◌, ◌∙◌, get_or, length, set, length-set, get_or-set_self, get_or-set_ne}
use arachnopod.Scheduler.Types.{QueueClass, normal, priority}
use arachnopod.Scheduler.State.{Task, no_task, SchedulerState, task_at, k_max_tasks}
use arachnopod.Scheduler.Queues.{push_slot, queue_task_slot, clear_task_slot}
use arachnopod.Scheduler.Tasks.{is_slot}
use arachnopod.Scheduler.Consistent.{IsConsistent}
use arachnopod.Scheduler.Placing.{Vacant, IsReady, queue-IsConsistent, clear-IsConsistent}
use arachnopod.Scheduler.Taken.{get_or_beyond}
use arachnopod.Cs.Control.{end_task}

abbrev released : SchedulerState → SchedulerState
released s = record s { active_task_slot = none }

push_slot-released :
    (slot : ℕ) (q : QueueClass) (s : SchedulerState)
    → released (push_slot slot q s) ≡ push_slot slot q (released s)
push_slot-released slot normal s = refl
push_slot-released slot priority s = refl

queue_task_slot-released :
    (slot : ℕ) (s : SchedulerState)
    → released (queue_task_slot slot s) ≡ queue_task_slot slot (released s)
unfolding queue_task_slot
queue_task_slot-released slot s =
    let t = task_at s slot in
    elim (Bool-cases (leb k_max_tasks slot)) [
      | inl e ↦ rw e refl
      | inr e ↦ elim (Bool-cases (not t.used || (t.queued || (t.active || not t.enabled)))) [
        | inl f ↦ rw (e, f) refl
        | inr f ↦
            let put : SchedulerState → SchedulerState =
              λ x. record x { tasks = set s.tasks slot (record t { queued = true }) } in
            rw (e, f) (ap put (push_slot-released slot t.queue s))
      ]
    ]

clear_task_slot-released :
    (slot : ℕ) (s : SchedulerState)
    → released (clear_task_slot slot s) ≡ clear_task_slot slot (released s)
unfolding clear_task_slot
clear_task_slot-released slot s = elim (Bool-cases (leb k_max_tasks slot)) [
  | inl e ↦ rw e refl
  | inr e ↦ rw e refl
]

-- The active slot, once it is released and its task no longer active.
abbrev ended : ℕ → SchedulerState → SchedulerState
ended slot s = record s {
  tasks = set s.tasks slot (record (task_at s slot) { active = false; exchange_armed = false });
}

active-lt :
    (slot : ℕ) (s : SchedulerState)
    → IsConsistent s
    → s.active_task_slot ≡ some slot
    → ((task_at s slot).active ≡ true) × (slot < k_max_tasks)
active-lt slot s h e =
    let here : is_slot slot s.active_task_slot ≡ true = rw e (ground arith) in
    let ok = h.slots slot in
    elim (Bool-cases (ltb slot k_max_tasks)) [
      | inl l ↦ (ground (arith, ok.is_active, here), ground arith)
      | inr l ↦ absurd (ground (arith, ok.is_active, here, get_or_beyond s.tasks slot, h.size))
    ]

ended-Vacant :
    (slot : ℕ) (s : SchedulerState)
    → IsConsistent s
    → s.active_task_slot ≡ some slot
    → Vacant slot s (released (ended slot s))
ended-Vacant slot s h e =
    let (active, lt) = active-lt slot s h e in
    let ok = h.slots slot in
    let t' = record (task_at s slot) { active = false; exchange_armed = false } in
    record {
      same = record {
        tasks = λ j ne. get_or-set_ne s.tasks slot j t' no_task ne;
        active = λ j ne. rw e (ground arith);
        normals = λ j ne. refl;
        priorities = λ j ne. refl;
        size = length-set s.tasks slot t';
      };
      below = lt;
      no_normal = ground (arith, ok.in_normal, ok.not_both, active);
      no_priority = ground (arith, ok.in_priority, ok.not_both, active);
      inactive = refl;
    }

ended_task :
    (slot : ℕ) (s : SchedulerState)
    → IsConsistent s
    → s.active_task_slot ≡ some slot
    → task_at (ended slot s) slot
      ≡ record (task_at s slot) { active = false; exchange_armed = false }
ended_task slot s h e =
    get_or-set_self s.tasks slot
      (record (task_at s slot) { active = false; exchange_armed = false }) no_task
      (omega (arith, (active-lt slot s h e).1, h.size))

-- At its end, the active task is queued again or its slot is cleared, and no task is active.
pub end_task-IsConsistent :
    (slot : ℕ) (s : SchedulerState)
    → IsConsistent s
    → s.active_task_slot ≡ some slot
    → IsConsistent (end_task slot s) × ((end_task slot s).active_task_slot ≡ none)
end_task-IsConsistent slot s h e =
    let ok = h.slots slot in
    let t = task_at (ended slot s) slot in
    let is = ended_task slot s h e in
    let active = (active-lt slot s h e).0 in
    let v = ended-Vacant slot s h e in
    elim (Bool-cases (t.used && (t.enabled && t.periodic))) [
      | inl f ↦
          let ready : IsReady t = rw is (record {
            used = ground (arith, ok.is_used, active);
            unqueued = ground (arith, ok.not_both, active);
            idle = refl;
            enabled = ground (arith, f, ap (λ x. x.enabled) is);
            placed = ground (arith, ok.placed, ok.is_used, active);
          }) in
          rw f (
            rw (queue_task_slot-released slot (ended slot s))
              (queue-IsConsistent slot s (released (ended slot s)) h v ready, refl))
      | inr f ↦ rw f (
          rw (clear_task_slot-released slot (ended slot s))
            (clear-IsConsistent slot s (released (ended slot s)) h v, refl))
    ]

-- The task of the slot after its end, and the others.
pub record TaskEnded (s after : SchedulerState) (slot : ℕ) : Type 0 where
  pub queued : (task_at after slot).queued ≡ ((task_at s slot).enabled && (task_at s slot).periodic)
  pub used : (task_at after slot).used ≡ ((task_at s slot).enabled && (task_at s slot).periodic)
  pub others : (j : ℕ) → slot ≢ j → task_at after j ≡ task_at s j

set_twice :
    (s : SchedulerState) (slot : ℕ) (t x : Task)
    → slot < length s.tasks
    → (get_or (set (set s.tasks slot t) slot x) slot no_task ≡ x)
      × ((j : ℕ) → slot ≢ j → get_or (set (set s.tasks slot t) slot x) j no_task ≡ task_at s j)
set_twice s slot t x lt = (
  get_or-set_self (set s.tasks slot t) slot x no_task
      (omega (arith, lt, length-set s.tasks slot t)),
  λ j ne.
      get_or-set_ne (set s.tasks slot t) slot j x no_task ne
      ∙ get_or-set_ne s.tasks slot j t no_task ne,
)

pub end_task-TaskEnded :
    (slot : ℕ) (s : SchedulerState)
    → IsConsistent s
    → s.active_task_slot ≡ some slot
    → TaskEnded s (end_task slot s) slot
unfolding queue_task_slot clear_task_slot
end_task-TaskEnded slot s h e =
    let ok = h.slots slot in
    let (active, lt) = active-lt slot s h e in
    let room : leb k_max_tasks slot ≡ false = ground arith in
    let t = record (task_at s slot) { active = false; exchange_armed = false } in
    let t' = task_at (ended slot s) slot in
    let is = ended_task slot s h e in
    let used : (task_at s slot).used ≡ true = ground (arith, ok.is_used, active) in
    let unqueued : (task_at s slot).queued ≡ false = ground (arith, ok.not_both, active) in
    let wants : ((task_at s slot).enabled && (task_at s slot).periodic)
        ≡ (t'.used && (t'.enabled && t'.periodic)) =
      rw is (rw used refl) in
    elim (Bool-cases (t'.used && (t'.enabled && t'.periodic))) [
      | inl f ↦
          let (here, there) =
            set_twice s slot t (record t' { queued = true }) (omega (arith, lt, h.size)) in
          let runs : (not t'.used || (t'.queued || (t'.active || not t'.enabled))) ≡ false =
            rw is (ground (arith, used, unqueued, f, ap (λ x. x.enabled) is)) in
          rw (f, room, runs)
            (record {
              queued = ap (λ x. x.queued) here ∙ sym (wants ∙ f);
              used = ap (λ x. x.used) here ∙ ap (λ x. x.used) is ∙ used ∙ sym (wants ∙ f);
              others = there;
            })
      | inr f ↦
          let (here, there) = set_twice s slot t no_task (omega (arith, lt, h.size)) in
          rw (f, room)
            (record {
              queued = ap (λ x. x.queued) here ∙ sym (wants ∙ f);
              used = ap (λ x. x.used) here ∙ sym (wants ∙ f);
              others = there;
            })
    ]
