-- ===== src/Cs/Armed.antt =====
-- Arming an exchange, of cs_support.cpp, keeps the agreement of slots and queues.
use arachnopod.Base.{ℕ, ◌<◌, true, not, ◌&&◌, ◌||◌, Option, none, some}
use arachnopod.Base.{◌≡◌, inl, inr, Bool-cases, refl, arith, leb, ◌==◌, if◌then◌else◌, get_or, pos}
use arachnopod.Ipar.Floats.{FloatOps}
use arachnopod.Scheduler.State.{Task, task_at, k_max_tasks}
use arachnopod.Scheduler.Consistent.{IsConsistent}
use arachnopod.Scheduler.Requests.{task-IsConsistent}
use arachnopod.Exchange.State.{ibus_reset_frame_layout}
use arachnopod.Cs.Control.{CsState, is_command}
use arachnopod.Cs.Arm.{
  arm_node, arm_slot, framed, put_command, load_command, prepare_command_exchange,
  prepare_data_exchange,
}

module _ {F : Type 0} (ops : FloatOps F) where
  -- Preparing an exchange leaves the scheduler alone.
  put_command-sched :
      (task : Task) (value : F) (s : CsState F) → (put_command ops task value s).sched ≡ s.sched
  put_command-sched task value s =
      elim (Bool-cases (not task.use_staged_window && not (task.command_id == 0))) [
        | inl e ↦ rw e refl
        | inr e ↦ rw e refl
      ]

  load_command-sched :
      (task : Task) (value : F) (slot : ℕ) (s : CsState F)
      → (load_command ops task value slot s).sched ≡ s.sched
  unfolding load_command
  load_command-sched task value slot s = put_command-sched task value (framed slot s)

  prepare_command_exchange-sched :
      (task : Task) (value : F) (slot : ℕ) (s : CsState F)
      → (prepare_command_exchange ops task value slot s).sched ≡ s.sched
  unfolding prepare_command_exchange
  prepare_command_exchange-sched task value slot s = elim (Bool-cases s.ready) [
    | inl e ↦ simp e (load_command-sched task value slot s)
    | inr e ↦ simp e
  ]

  prepared-sched :
      (task : Task) (value : F) (slot : ℕ) (s : CsState F)
      → (if is_command task.kind
          then prepare_command_exchange ops task value slot s
          else prepare_data_exchange slot s).sched
        ≡ s.sched
  unfolding prepare_data_exchange
  prepared-sched task value slot s = elim (Bool-cases (is_command task.kind)) [
    | inl e ↦ rw e (prepare_command_exchange-sched task value slot s)
    | inr e ↦ rw e refl
  ]

  arm_node-IsConsistent :
      (active : ℕ) (node : Option ℕ) (s : CsState F)
      → IsConsistent s.sched
      → active < k_max_tasks
      → IsConsistent (arm_node ops active (task_at s.sched active) node s).sched
  arm_node-IsConsistent active none s h lt = h
  arm_node-IsConsistent active (some slot) s h lt =
      let task = task_at s.sched active in
      let same =
        prepared-sched task (get_or s.values active (ops.of_int (pos 1))) slot
          (record s { bus = ibus_reset_frame_layout s.bus }) in
      let ok = h.slots active in
      rw same (
        task-IsConsistent active s.sched (record task { exchange_armed = true }) h lt
          (record {
            in_normal = ok.in_normal;
            in_priority = ok.in_priority;
            is_active = ok.is_active;
            is_used = ok.is_used;
            not_both = ok.not_both;
            may_run = ok.may_run;
            placed = ok.placed;
          }))

  pub arm_slot-IsConsistent :
      (o : Option ℕ) (s : CsState F) → IsConsistent s.sched → IsConsistent (arm_slot ops o s).sched
  arm_slot-IsConsistent none s h = h
  arm_slot-IsConsistent (some slot) s h =
      let task = task_at s.sched slot in
      elim (Bool-cases (leb k_max_tasks slot)) [
        | inl e ↦ rw e h
        | inr e ↦ elim (Bool-cases (not task.used || (not task.active || task.exchange_armed))) [
          | inl f ↦ rw (e, f) h
          | inr f ↦ rw (e, f) (arm_node-IsConsistent slot task.node s h (ground arith))
        ]
      ]
