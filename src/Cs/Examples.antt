-- ===== src/Cs/Examples.antt =====
-- Concrete runs of the scheduler of CS with its bus.
use arachnopod.Base.{true, false, List, [], ◌∷◌, ◌≡◌, refl, replicate, ℤ, pos}
use arachnopod.Tables.Config.{sys_cs, arp_addr_cs, arp_addr_pss}
use arachnopod.Scheduler.Types.{pss, tcs, normal, priority}
use arachnopod.Scheduler.Consistent.{IsConsistent}
use arachnopod.Exchange.Flags.{BusRole}
use arachnopod.Tools.{bind_standard_bus}
use arachnopod.Ipar.WholeFloats.{whole_floats}
use arachnopod.Scheduler.State.{reset_tasks}
use arachnopod.OperatingMode.{initial_state}
use arachnopod.Cs.Nodes.{initial_nodes}
use arachnopod.Cs.Control.{CsState, exchange_control, reset_scheduler}
use arachnopod.Cs.Arm.{cs_sizes}
use arachnopod.Cs.Invariant.{Controlled, exchange_control_lem}
use arachnopod.Cs.Operations.{
  CsOperation, initialise, poll, send, control, arm, cancel_poll, nodes, run_operation,
  run_operations, slots-IsConsistent,
}

abbrev fresh : CsState ℤ
fresh = record {
  sched = reset_tasks;
  values = replicate 32 (pos 1);
  nodes = initial_nodes;
  ready = true;
  pending = replicate 5 (replicate 8 0);
  completions = [];
  bus = bind_standard_bus BusRole.master sys_cs arp_addr_cs arp_addr_pss cs_sizes;
}

abbrev exchanges : List (CsOperation ℤ)
exchanges =
    initialise
    ∷ poll tcs normal
    ∷ send pss 55 (pos 1) false priority
    ∷ control
    ∷ arm
    ∷ cancel_poll tcs
    ∷ nodes initial_state
    ∷ []

slots-IsConsistent_example :
    IsConsistent (run_operations whole_floats exchanges (reset_scheduler fresh)).sched
slots-IsConsistent_example = slots-IsConsistent whole_floats exchanges fresh

abbrev polled : CsState ℤ
polled = run_operations whole_floats (poll tcs normal ∷ []) (reset_scheduler fresh)

polled-ready : polled.ready ≡ true
unfolding run_operations run_operation reset_scheduler
polled-ready = refl

exchange_control_lem_example : Controlled polled (exchange_control polled)
exchange_control_lem_example =
    exchange_control_lem polled polled-ready
      (slots-IsConsistent whole_floats (poll tcs normal ∷ []) fresh)
