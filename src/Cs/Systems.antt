-- ===== src/Cs/Systems.antt =====
-- cs/src/cs_nodes.cpp, the nodes' steps under cs/src/nodes, cs_systems.cpp, cs_systems_support.cpp
-- and the start and the high-level algorithm of CS in cs.cpp and cs_support.cpp. A step function of
-- the source applies the policy of one target, for which it stands in the step order.
use arachnopod.Base.{Bool, true, some, List, [], ◌∷◌, if◌then◌else◌}
use arachnopod.Sys.{TickState, isysreset}
use arachnopod.Tables.Config.{sys_cs, arp_addr_cs, arp_addr_pss}
use arachnopod.Ipar.Floats.{FloatOps}
use arachnopod.Isim.Access.{SimStore}
use arachnopod.Model.SmallTables.{cs_isim_params}
use arachnopod.Scheduler.Types.{Target, pss, tcs, tms, mns, ls}
use arachnopod.Scheduler.State.{SchedulerState}
use arachnopod.Scheduler.Tasks.{ensure_periodic_exchange, cancel_periodic_exchange}
use arachnopod.Exchange.Flags.{BusRole}
use arachnopod.Exchange.State.{ibus_reset_frame_layout}
use arachnopod.OperatingMode.{ModeState}
use arachnopod.OperatingMode.Queries.{NodePolicy, policy_for}
use arachnopod.Tools.{
  SoftwareState, clear_wire_storage, reset_software_state, bind_standard_bus, build_isim_registry,
}
use arachnopod.Cs.Control.{CsState, init_scheduler, reset_scheduler}
use arachnopod.Cs.Arm.{cs_sizes, icsscheduler}

abbrev pub apply_policy : NodePolicy → Target → SchedulerState → SchedulerState
apply_policy policy target s =
    if policy.periodic_exchange
    then (ensure_periodic_exchange target policy.queue s).1
    else (cancel_periodic_exchange target s).1

unfoldable pub apply_periodic_policy : ModeState → Target → SchedulerState → SchedulerState
apply_periodic_policy mode target s = apply_policy (policy_for target mode) target s

-- `G_NODE_STEP_ORDER`
abbrev pub node_step_order : List Target
node_step_order = tcs ∷ pss ∷ tms ∷ mns ∷ ls ∷ []

unfoldable pub run_steps : ModeState → List Target → SchedulerState → SchedulerState
run_steps mode [] s = s
run_steps mode (target ∷ more) s = run_steps mode more (apply_periodic_policy mode target s)

unfoldable pub run_node_step_order : ModeState → SchedulerState → SchedulerState
run_node_step_order mode s = run_steps mode node_step_order s

-- The globals of CS.
pub record CsGlobals (F : Type 0) : Type 0 where
  pub cs : CsState F
  pub mode : ModeState
  pub sim : SimStore F
  pub tick : TickState
  pub software : SoftwareState
  pub bus_ready : Bool

module _ {F : Type 0} where
  unfoldable pub init_bus_state : CsGlobals F → CsGlobals F
  init_bus_state s = if s.bus_ready then s else record s {
    cs = record (s.cs) {
      bus = bind_standard_bus BusRole.master sys_cs arp_addr_cs arp_addr_pss cs_sizes;
    };
    bus_ready = true;
  }

  unfoldable pub init_msg_buffers : CsGlobals F → CsGlobals F
  unfolding init_bus_state
  init_msg_buffers s =
      let bound = init_bus_state s in
      record bound {
        cs = record (bound.cs) {
          bus = ibus_reset_frame_layout (clear_wire_storage cs_sizes bound.cs.bus);
        };
      }

  unfoldable pub init_isim_registry : CsGlobals F → CsGlobals F
  unfolding build_isim_registry
  init_isim_registry s = record s {
    sim = record (s.sim) { registry = some (build_isim_registry cs_isim_params) };
  }

  unfoldable pub runtime_init : CsGlobals F → CsGlobals F
  runtime_init s =
      let ready = init_isim_registry (init_msg_buffers s) in
      record ready {
        cs = reset_scheduler (init_scheduler ready.cs);
        mode = arachnopod.OperatingMode.reset;
        tick = isysreset;
        software = reset_software_state;
      }

  -- `ICSHIALG`: `operating_mode::step` pops all the completions of the scheduler.
  unfoldable pub icshialg : CsGlobals F → CsGlobals F
  icshialg s =
      let (mode, left) = arachnopod.OperatingMode.step s.cs.completions s.mode in
      record s { mode = mode; cs = record (s.cs) { completions = left } }

  -- `ICSNODES`, with `ICSSYSOPERATOR`; `ICSMODULEOPERATOR` is empty.
  unfoldable pub icsnodes : CsGlobals F → CsGlobals F
  icsnodes s = record s { cs = record (s.cs) { sched = run_node_step_order s.mode s.cs.sched } }

  -- `ICSALG` after `ICSCONTROL`.
  unfoldable pub icsalg_after_control : FloatOps F → CsGlobals F → CsGlobals F
  icsalg_after_control ops s =
      let nodes = icsnodes (icshialg s) in record nodes { cs = icsscheduler ops nodes.cs }
