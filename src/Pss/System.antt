-- ===== src/Pss/System.antt =====
-- The software of the power system: pss/src/pss.cpp, pss/src/pss_internal.hpp and the hooks of
-- pss/src/pss_support.cpp. Log lines are not modelled, so `ILOG` changes nothing.
use arachnopod.Base.{ℕ, Bool, true, none, some, Option, if◌then◌else◌, ◌==◌, pos}
use arachnopod.Sys.{TickState, isysreset}
use arachnopod.Tables.Config.{
  sys_pss, arp_addr_cs, arp_addr_pss, pss_param_msg_blocks, pss_comm_msg_blocks,
}
use arachnopod.Tables.PssIds
use arachnopod.Ipar.Context.{Role, ParContext}
use arachnopod.Ipar.Floats.{FloatOps}
use arachnopod.Isim.Access.{SimStore}
use arachnopod.Model.PssTables.{pss_isim_params}
use arachnopod.Exchange.Flags.{BusRole}
use arachnopod.Exchange.State.{BusState}
use arachnopod.Exchange.Run.{no_hooks}
use arachnopod.Exchange.Frame.{isys_sync_msgprm_to_buf}
use arachnopod.Exchange.SysAlg.{Tick, SysBaseHooks, isysbasealg, isys_export_model_params}
use arachnopod.Tools.{
  WireSizes, SoftwareState, make_imsg_context, clear_wire_storage, reset_software_state,
  bind_standard_bus, build_isim_registry,
}
use arachnopod.Pss.Commands.{PssState, apply_system_commands, apply_power_commands, is_power_on}

-- The sizes of `pss::internal::wire_storage_t`.
abbrev pub pss_sizes : WireSizes
pss_sizes = record {
  cmd_buf_blocks = pss_comm_msg_blocks;
  prm_buf_blocks = pss_param_msg_blocks;
  cmd_blocks = pss_comm_msg_blocks;
  prm_blocks = pss_param_msg_blocks;
}

-- The globals of pss_internal.hpp that are not in the bus state and the tick.
pub record PssGlobals (F : Type 0) : Type 0 where
  pub sim : SimStore F
  pub software : SoftwareState
  pub bus_ready : Bool

abbrev pub PssTick : Type 0 → Type 0
PssTick F = Tick (PssGlobals F)

-- `G_IMSG_CTX`
abbrev pub pss_context : BusState → ParContext
pss_context s = make_imsg_context Role.device sys_pss pss_sizes s

unfoldable pub init_bus_state : {F : Type 0} → PssTick F → PssTick F
init_bus_state t = if t.world.user.bus_ready then t else record t {
  world = record (t.world) {
    state = bind_standard_bus BusRole.device sys_pss arp_addr_pss arp_addr_cs pss_sizes;
    user = record (t.world.user) { bus_ready = true };
  };
}

unfoldable pub init_msg_buffers : {F : Type 0} → PssTick F → PssTick F
unfolding init_bus_state
init_msg_buffers t =
    let bound = init_bus_state t in
    record bound {
      world = record (bound.world) { state = clear_wire_storage pss_sizes bound.world.state };
    }

unfoldable pub init_isim_registry : {F : Type 0} → PssTick F → PssTick F
unfolding build_isim_registry
init_isim_registry t = record t {
  world = record (t.world) {
    user = record (t.world.user) {
      sim = record (t.world.user.sim) { registry = some (build_isim_registry pss_isim_params) };
    };
  };
}

unfoldable pub runtime_init : {F : Type 0} → PssTick F → PssTick F
runtime_init t =
    let ready = init_isim_registry (init_msg_buffers t) in
    record ready {
      tick = isysreset;
      world = record (ready.world) {
        user = record (ready.world.user) { software = reset_software_state };
      };
    }

module _ {F : Type 0} (ops : FloatOps F) where
  abbrev pub commands_of : PssTick F → PssState F
  commands_of t = record { ctx = pss_context t.world.state; sim = t.world.user.sim; user = t.tick }

  -- The context's command words are those of the bus state.
  abbrev pub with_commands : PssTick F → PssState F → PssTick F
  with_commands t s = record t {
    tick = s.user;
    world = record (t.world) {
      state = record (t.world.state) { msg_cmd_u16 = s.ctx.msg_cmd };
      user = record (t.world.user) { sim = s.sim };
    };
  }

  unfoldable pub icmdupd : PssTick F → PssTick F
  icmdupd t = with_commands t (apply_system_commands ops (commands_of t))

  unfoldable pub icmdpwrupd : PssTick F → PssTick F
  icmdpwrupd t = with_commands t (apply_power_commands ops (commands_of t))

  unfoldable pub export_override : TickState → ℕ → TickState × Option F
  export_override tick id =
      (tick, if id == PssIds.pssclock then some (ops.of_int (pos tick.clock)) else none)

  unfoldable pub iprmupd : PssTick F → PssTick F
  iprmupd t =
      let (tick, ctx) =
        isys_export_model_params ops (some (export_override)) t.world.user.sim PssIds.pss_count
          PssIds.pss_base (t.tick, pss_context t.world.state) in
      record t {
        world = record (t.world) {
          state = isys_sync_msgprm_to_buf (record (t.world.state) { msg_prm_u16 = ctx.msg_prm });
        };
      }

  abbrev pub nothing : PssTick F → PssTick F
  nothing t = t

  -- `k_base_hooks`
  abbrev pub k_base_hooks : SysBaseHooks (PssGlobals F)
  k_base_hooks = record {
    isysalg = record {
      icmdupd = some icmdupd;
      localsysalg = some nothing;
      isysnodes = some nothing;
      iprmupd = some iprmupd;
    };
    ibusexchange = none;
    iexchangectrl = none;
    icmdpwrupd = some icmdpwrupd;
    ilog = some nothing;
  }

  abbrev pub at_tick : ℕ → PssTick F → PssTick F
  at_tick tick t = record t {
    world = record (t.world) {
      state = record (t.world.state) { writer_tick = tick };
      user = record (t.world.user) {
        software = record (t.world.user.software) { current_tick = tick };
      };
    };
  }

  unfoldable pub runtime_step : ℕ → PssTick F → PssTick F
  runtime_step tick t =
      let ready = at_tick tick (if t.world.user.software.initialized then t else runtime_init t) in
      isysbasealg (is_power_on ops ready.world.user.sim) no_hooks k_base_hooks ready
