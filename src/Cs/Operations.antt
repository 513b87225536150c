-- ===== src/Cs/Operations.antt =====
-- Every sequence of what CS does with its scheduler, and the agreement of slots and queues after it.
use arachnopod.Base.{
  ℕ, zero, suc, Bool, Option, none, some, List, [], ◌∷◌, replicate, length-replicate,
}
use arachnopod.Base.{◌≡◌, inl, inr, Bool-cases, refl, get_or}
use arachnopod.Ipar.Floats.{FloatOps}
use arachnopod.Scheduler.Types.{Target, QueueClass, Completion}
use arachnopod.Scheduler.State.{no_task, k_max_tasks, reset_tasks}
use arachnopod.Scheduler.Tasks.{
  find_node_by_target, cancel_task, cancel_periodic_exchange, enqueue_exchange,
  ensure_periodic_exchange,
}
use arachnopod.Scheduler.Consistent.{occurrences, IsConsistent}
use arachnopod.Scheduler.Clients.{
  remove_tasks_for_node-IsConsistent, cancel_task-IsConsistent,
  cancel_periodic_exchange-IsConsistent, enqueue_exchange-IsConsistent,
  ensure_periodic_exchange-IsConsistent, enqueue_command-IsConsistent,
}
use arachnopod.Exchange.State.{BusState}
use arachnopod.Cs.Control.{
  CsState, exchange_control, cancel_node, cancel_target, reset_scheduler, init_scheduler,
  try_pop_completion, pop_completion, enqueue_command_value,
}
use arachnopod.Cs.Arm.{arm_active_exchange}
use arachnopod.OperatingMode.{ModeState}
use arachnopod.Cs.Systems.{run_node_step_order}
use arachnopod.Cs.Periodic.{run_node_step_order-IsConsistent}
use arachnopod.Cs.Armed.{arm_slot-IsConsistent}
use arachnopod.Cs.Invariant.{exchange_control_lem}

-- The operations, `bus_is` for what the bus exchange makes of the bus state, and `nodes` for the
-- steps of the nodes under an operating mode.
pub data CsOperation (F : Type 0) : Type 0 where
  initialise restart control arm pop : CsOperation F
  request : Target → QueueClass → Bool → CsOperation F
  poll : Target → QueueClass → CsOperation F
  send : Target → ℕ → F → Bool → QueueClass → CsOperation F
  cancel : ℕ → CsOperation F
  cancel_poll cancel_all : Target → CsOperation F
  bus_is : BusState → CsOperation F
  nodes : ModeState → CsOperation F

all_free : (n j : ℕ) → get_or (replicate n no_task) j no_task ≡ no_task
all_free zero j = refl
all_free (suc n) zero = refl
all_free (suc n) (suc j) = all_free n j

reset_tasks-IsConsistent : IsConsistent reset_tasks
unfolding reset_tasks occurrences
reset_tasks-IsConsistent = record {
  slots = λ j. rw (all_free k_max_tasks j) (record {
    in_normal = refl;
    in_priority = refl;
    is_active = refl;
    is_used = refl;
    not_both = refl;
    may_run = refl;
    placed = refl;
  });
  size = length-replicate k_max_tasks no_task;
}

module _ {F : Type 0} (ops : FloatOps F) where
  unfoldable pub run_operation : CsOperation F → CsState F → CsState F
  run_operation initialise s = init_scheduler s
  run_operation restart s = reset_scheduler s
  run_operation control s = exchange_control s
  run_operation arm s = arm_active_exchange ops s
  run_operation pop s = (try_pop_completion s).1
  run_operation (request target queue periodic) s = record s {
    sched = (enqueue_exchange target queue periodic s.sched).1;
  }
  run_operation (poll target queue) s = record s {
    sched = (ensure_periodic_exchange target queue s.sched).1;
  }
  run_operation (send target id value has_value queue) s =
      (enqueue_command_value target id value has_value queue s).1
  run_operation (cancel id) s = record s { sched = (cancel_task id s.sched).1 }
  run_operation (cancel_poll target) s = record s {
    sched = (cancel_periodic_exchange target s.sched).1;
  }
  run_operation (cancel_all target) s = (cancel_target target s).1
  run_operation (bus_is bus) s = record s { bus = bus }
  run_operation (nodes mode) s = record s { sched = run_node_step_order mode s.sched }

  unfoldable pub run_operations : List (CsOperation F) → CsState F → CsState F
  run_operations [] s = s
  run_operations (op ∷ more) s = run_operations more (run_operation op s)

  cancel_node-IsConsistent :
      (node : Option ℕ) (s : CsState F)
      → IsConsistent s.sched
      → IsConsistent (cancel_node node s).1.sched
  cancel_node-IsConsistent none s h = h
  cancel_node-IsConsistent (some slot) s h = remove_tasks_for_node-IsConsistent slot s.sched h

  pop_completion-sched :
      (cs : List Completion) (s : CsState F) → (pop_completion cs s).1.sched ≡ s.sched
  pop_completion-sched [] s = refl
  pop_completion-sched (c ∷ cs) s = refl

  control-IsConsistent :
      (s : CsState F) → IsConsistent s.sched → IsConsistent (exchange_control s).sched
  unfolding exchange_control
  control-IsConsistent s h = elim (Bool-cases s.ready) [
    | inl e ↦ (exchange_control_lem s e h).consistent
    | inr e ↦ simp e h
  ]

  run_operation-IsConsistent :
      (op : CsOperation F) (s : CsState F)
      → IsConsistent s.sched
      → IsConsistent (run_operation op s).sched
  unfolding run_operation init_scheduler reset_scheduler arm_active_exchange try_pop_completion
      enqueue_command_value cancel_target
  run_operation-IsConsistent initialise s h = h
  run_operation-IsConsistent restart s h = reset_tasks-IsConsistent
  run_operation-IsConsistent control s h = control-IsConsistent s h
  run_operation-IsConsistent arm s h = arm_slot-IsConsistent ops s.sched.active_task_slot s h
  run_operation-IsConsistent pop s h = rw (pop_completion-sched s.completions s) h
  run_operation-IsConsistent (request target queue periodic) s h =
      enqueue_exchange-IsConsistent target queue periodic s.sched h
  run_operation-IsConsistent (poll target queue) s h =
      ensure_periodic_exchange-IsConsistent target queue s.sched h
  run_operation-IsConsistent (send target id value has_value queue) s h =
      enqueue_command-IsConsistent target id has_value queue s.sched h
  run_operation-IsConsistent (cancel id) s h = cancel_task-IsConsistent id s.sched h
  run_operation-IsConsistent (cancel_poll target) s h =
      cancel_periodic_exchange-IsConsistent target s.sched h
  run_operation-IsConsistent (cancel_all target) s h =
      cancel_node-IsConsistent (find_node_by_target target) s h
  run_operation-IsConsistent (bus_is bus) s h = h
  run_operation-IsConsistent (nodes mode) s h = run_node_step_order-IsConsistent mode s.sched h

  operations-IsConsistent :
      (more : List (CsOperation F)) (s : CsState F)
      → IsConsistent s.sched
      → IsConsistent (run_operations more s).sched
  unfolding run_operations
  operations-IsConsistent [] s h = h
  operations-IsConsistent (op ∷ more) s h =
      operations-IsConsistent more (run_operation op s) (run_operation-IsConsistent op s h)

  -- After `reset` and any sequence of requests, cancellations, exchange controls, armings, steps of
  -- the nodes and bus exchanges, every slot's task is used exactly if it is queued or active, and not both; a queued
  -- task stands exactly once in the queue of its class, in no other, and is enabled; the active mark
  -- is that of the active slot alone; and every used task has a node.
  pub slots-IsConsistent :
      (more : List (CsOperation F)) (s : CsState F)
      → IsConsistent (run_operations more (reset_scheduler s)).sched
  unfolding reset_scheduler
  slots-IsConsistent more s =
      operations-IsConsistent more (reset_scheduler s) reset_tasks-IsConsistent
