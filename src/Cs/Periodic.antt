-- ===== src/Cs/Periodic.antt =====
-- The steps of the nodes of CS keep the agreement of slots and queues.
use arachnopod.Base.{List, [], ◌∷◌, inl, inr, Bool-cases}
use arachnopod.Scheduler.Types.{Target}
use arachnopod.Scheduler.State.{SchedulerState}
use arachnopod.Scheduler.Consistent.{IsConsistent}
use arachnopod.Scheduler.Clients.{
  cancel_periodic_exchange-IsConsistent, ensure_periodic_exchange-IsConsistent,
}
use arachnopod.OperatingMode.{ModeState}
use arachnopod.OperatingMode.Queries.{NodePolicy, policy_for}
use arachnopod.Cs.Systems.{
  apply_policy, apply_periodic_policy, run_steps, run_node_step_order, node_step_order,
}

apply_policy-IsConsistent :
    (policy : NodePolicy) (target : Target) (s : SchedulerState)
    → IsConsistent s
    → IsConsistent (apply_policy policy target s)
apply_policy-IsConsistent policy target s h = elim (Bool-cases policy.periodic_exchange) [
  | inl e ↦ rw e (ensure_periodic_exchange-IsConsistent target policy.queue s h)
  | inr e ↦ rw e (cancel_periodic_exchange-IsConsistent target s h)
]

run_steps-IsConsistent :
    (mode : ModeState) (targets : List Target) (s : SchedulerState)
    → IsConsistent s
    → IsConsistent (run_steps mode targets s)
unfolding run_steps apply_periodic_policy
run_steps-IsConsistent mode [] s h = h
run_steps-IsConsistent mode (target ∷ more) s h =
    run_steps-IsConsistent mode more (apply_policy (policy_for target mode) target s)
      (apply_policy-IsConsistent (policy_for target mode) target s h)

pub run_node_step_order-IsConsistent :
    (mode : ModeState) (s : SchedulerState)
    → IsConsistent s
    → IsConsistent (run_node_step_order mode s)
unfolding run_node_step_order
run_node_step_order-IsConsistent mode s h = run_steps-IsConsistent mode node_step_order s h
