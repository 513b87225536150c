-- ===== src/Cs/Invariant.antt =====
-- The slots of the scheduler stay in order whatever CS does: the exchanges, their arming and their
-- end, and the requests and cancellations.
use arachnopod.Base.{ℕ, true, false, Option, none, some, [], ◌∷◌, ◌++◌}
use arachnopod.Base.{◌≡◌, ◌⊎◌, inl, inr, Bool-cases, refl, ap}
use arachnopod.Scheduler.State.{Task, SchedulerState, task_at}
use arachnopod.Scheduler.Consistent.{IsConsistent}
use arachnopod.Scheduler.Tasks.{activate_next_task}
use arachnopod.Scheduler.Activated.{activate_next_task_lem}
use arachnopod.Exchange.Flags.{ExchangeResult}
use arachnopod.Exchange.State.{ibus_reset_frame_layout}
use arachnopod.Exchange.Frame.{ibus_take_result}
use arachnopod.Cs.Control.{
  CsState, finish_command, is_command, finalize_with, finalize_slot, finalize_active_task,
  completion_of, target_of, to_public_completion_result, after_finalize, activate_if_idle,
  exchange_control,
}
use arachnopod.Cs.Ended.{end_task-IsConsistent, TaskEnded, end_task-TaskEnded}

-- A task is active, or there was no slot in use.
abbrev pub Busy : SchedulerState → SchedulerState → Type 0
Busy s after =
    ((slot : ℕ) × (after.active_task_slot ≡ some slot)) ⊎ ((j : ℕ) → (task_at s j).used ≡ false)

module _ {F : Type 0} where
  finish_command-sched :
      (task : Task) (node : Option ℕ) (r : ExchangeResult) (s : CsState F)
      → ((finish_command task node r s).sched ≡ s.sched)
        × ((finish_command task node r s).completions ≡ s.completions)
  finish_command-sched task none r s = (refl, refl)
  finish_command-sched task (some slot) r s = elim (Bool-cases (is_command task.kind)) [
    | inl e ↦ rw e (refl, refl)
    | inr e ↦ rw e (refl, refl)
  ]

  -- What `exchange_control` does when the exchange of the task in the active slot has a result.
  pub record Ended (s : CsState F) (slot : ℕ) (after : CsState F) : Type 0 where
    pub completed :
        after.completions
        ≡ s.completions
          ++ (record {
            valid = true;
            target = target_of s.nodes (task_at s.sched slot).node;
            kind = (task_at s.sched slot).kind;
            periodic = (task_at s.sched slot).periodic;
            have_result = true;
            result = to_public_completion_result s.bus.last_result;
          }
              ∷ [])
    pub idle : after.sched.active_task_slot ≡ none
    pub task : TaskEnded s.sched after.sched slot

  -- What `exchange_control` does: it starts a task, goes on waiting, or ends the active task.
  abbrev pub Progress : CsState F → CsState F → Type 0
  Progress s after =
      ((s.sched.active_task_slot ≡ none)
        × (after.completions ≡ s.completions)
        × Busy s.sched after.sched)
      ⊎ (((slot : ℕ) × (s.sched.active_task_slot ≡ some slot)
            × (((task_at s.sched slot).exchange_armed ≡ false) ⊎ (s.bus.result_ready ≡ false))
            × (after ≡ s))
          ⊎ ((slot : ℕ) × (s.sched.active_task_slot ≡ some slot)
              × ((task_at s.sched slot).exchange_armed ≡ true)
              × (s.bus.result_ready ≡ true)
              × Ended s slot after))

  pub record Controlled (s after : CsState F) : Type 0 where
    pub consistent : IsConsistent after.sched
    pub progress : Progress s after

  finalized :
      (slot : ℕ) (s : CsState F)
      → IsConsistent s.sched
      → s.sched.active_task_slot ≡ some slot
      → s.bus.result_ready ≡ true
      → IsConsistent (after_finalize (finalize_with slot (ibus_take_result s.bus) s)).sched
        × Ended s slot (after_finalize (finalize_with slot (ibus_take_result s.bus) s))
  unfolding ibus_take_result
  finalized slot s h e ready =
      let task = task_at s.sched slot in
      let bus =
        ibus_reset_frame_layout
          (record (s.bus) { result_ready = false; last_result = ExchangeResult.none }) in
      let (same, kept) =
        finish_command-sched task task.node s.bus.last_result (record s { bus = bus }) in
      let (ok, idle) = end_task-IsConsistent slot s.sched h e in
      simp ready (
        rw same (
          ok,
          record {
            completed = ap (λ cs. cs ++ (completion_of s.nodes task s.bus.last_result ∷ [])) kept;
            idle = idle;
            task = end_task-TaskEnded slot s.sched h e;
          },
        ))

  slot-Controlled :
      (slot : ℕ) (s : CsState F)
      → IsConsistent s.sched
      → s.sched.active_task_slot ≡ some slot
      → Controlled s (after_finalize (finalize_slot (some slot) s))
  slot-Controlled slot s h e =
      let waits : activate_if_idle s.sched.active_task_slot s ≡ s = rw e refl in
      elim (Bool-cases (task_at s.sched slot).exchange_armed) [
        | inr f ↦
            rw (f, waits) (record { consistent = h; progress = inr (inl (slot, e, inl f, refl)) })
        | inl f ↦ elim (Bool-cases s.bus.result_ready) [
          | inr g ↦
              let nothing : ibus_take_result s.bus ≡ (none, s.bus) =
                unfold ibus_take_result in simp g in
              rw (f, nothing, waits)
                (record { consistent = h; progress = inr (inl (slot, e, inr g, refl)) })
          | inl g ↦
              let (ok, done) = finalized slot s h e g in
              rw f (record { consistent = ok; progress = inr (inr (slot, e, f, g, done)) })
        ]
      ]

  any-Controlled :
      (o : Option ℕ) (s : CsState F)
      → IsConsistent s.sched
      → s.sched.active_task_slot ≡ o
      → Controlled s (after_finalize (finalize_slot o s))
  any-Controlled none s h e =
      let (ok, busy) = activate_next_task_lem s.sched h e in
      let starts : activate_if_idle s.sched.active_task_slot s
          ≡ record s { sched = activate_next_task s.sched } =
        ap (λ o. activate_if_idle o s) e in
      rw starts (record { consistent = ok; progress = inl (e, refl, busy) })
  any-Controlled (some slot) s h e = slot-Controlled slot s h e

  -- In a scheduler that has been initialised: if the slots, the queued marks and the queues agree,
  -- they agree after `exchange_control`. If no task was active, no completion is added, and a task is active then,
  -- unless no slot was in use. If a task was active and its exchange not armed or without a result,
  -- nothing changes. If its exchange was armed and has a result, one completion with that result and
  -- the task's target, kind and periodic mark is appended, no task is active, and the task is queued again
  -- if it is enabled and periodic, else its slot is free; the other slots keep their tasks.
  pub exchange_control_lem :
      (s : CsState F) → s.ready ≡ true → IsConsistent s.sched → Controlled s (exchange_control s)
  unfolding exchange_control finalize_active_task
  exchange_control_lem s r h = simp r (any-Controlled s.sched.active_task_slot s h refl)
