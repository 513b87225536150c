-- ===== src/Cs/Arm.antt =====
-- The exchanges of cs/src/cs_support.cpp: `prepare_command_exchange`, `prepare_data_exchange`,
-- `arm_active_exchange`, `IBUSEXCHANGE` and `ICSSCHEDULER`.
use arachnopod.Base.{
  ℕ, true, false, ◌&&◌, ◌||◌, not, Option, none, some, leb, ◌==◌, if◌then◌else◌, get_or, set, pos,
}
use arachnopod.Tables.Config.{
  sys_cs, arp_flag_cmd_req, arp_flag_data_req, cs_comm_msg_blocks, cs_param_msg_blocks,
  cs_comm_buf_blocks, cs_param_buf_blocks,
}
use arachnopod.Ipar.Context.{Role, ParContext}
use arachnopod.Ipar.Floats.{FloatOps}
use arachnopod.Ipar.Access.{imsgset}
use arachnopod.Scheduler.State.{Task, task_at, k_max_tasks}
use arachnopod.Exchange.Flags.{ExchangeFlag, RxFlag, TxFlag}
use arachnopod.Exchange.State.{BusState, BusHooks, ibus_reset_frame_layout}
use arachnopod.Exchange.Frame.{ibus_set_cmd_frame, ibus_set_prm_frame, ibus_clear_result}
use arachnopod.Exchange.Run.{ibus_exchange}
use arachnopod.MockBus.{MockBusState}
use arachnopod.Tools.{WireSizes, make_imsg_context}
use arachnopod.Cs.Nodes.{NodeLayout}
use arachnopod.Cs.Windows.{
  clear_command_msg_window, clear_command_buffer_window, load_pending_command_window,
  merge_command_window_to_buffer,
}
use arachnopod.Cs.Control.{CsState, windows_of, with_windows, node_at, is_command, exchange_control}

-- The sizes of `cs::internal::wire_storage_t`.
abbrev pub cs_sizes : WireSizes
cs_sizes = record {
  cmd_buf_blocks = cs_comm_buf_blocks;
  prm_buf_blocks = cs_param_buf_blocks;
  cmd_blocks = cs_comm_msg_blocks;
  prm_blocks = cs_param_msg_blocks;
}

-- `G_IMSG_CTX`
abbrev pub cs_context : BusState → ParContext
cs_context bus = make_imsg_context Role.cs sys_cs cs_sizes bus

unfoldable pub set_frames : NodeLayout → BusState → BusState
unfolding ibus_set_cmd_frame ibus_set_prm_frame
set_frames node bus =
    (ibus_set_prm_frame node.par_cs_base_block node.par_blocks
      (ibus_set_cmd_frame node.com_cs_base_block node.com_blocks bus).1).1

unfoldable pub start_exchange : ℕ → ℕ → BusState → BusState
unfolding ibus_clear_result
start_exchange flag target_addr bus = ibus_clear_result (record bus {
  msg_flag = flag;
  target_addr = target_addr;
  exchange_flag = ExchangeFlag.tx;
  tx_flag = TxFlag.tx_sof;
  rx_flag = RxFlag.rx_sof;
  msg_adr_flag = false;
  msg_n_blocks = 0;
  exchange_sub_clock = 0;
  exchange_wait_clock = 0;
  exchange_busy = true;
})

-- The buffer with the commands that are kept for the node, and the frames of the node.
abbrev pub framed : {F : Type 0} → ℕ → CsState F → CsState F
framed slot s =
    let node = node_at s.nodes slot in
    let loaded =
      with_windows s
        (load_pending_command_window slot node (clear_command_buffer_window node (windows_of s))) in
    record loaded { bus = set_frames node loaded.bus }

unfoldable pub prepare_data_exchange : {F : Type 0} → ℕ → CsState F → CsState F
prepare_data_exchange slot s = record s { bus = set_frames (node_at s.nodes slot) s.bus }

module _ {F : Type 0} (ops : FloatOps F) where
  -- The `IMSGSET` of a command that is not in the staged window.
  abbrev pub put_command : Task → F → CsState F → CsState F
  put_command task value s =
      if not task.use_staged_window && not (task.command_id == 0)
      then record s {
        bus = record (s.bus) {
          msg_cmd_u16 =
              (imsgset ops (cs_context s.bus) task.command_id
                (if task.has_value then value else ops.of_int (pos 1))).1.msg_cmd;
        };
      }
      else s

  -- The command's fields in the buffer, and its window in the image of CS clear.
  unfoldable pub load_command : Task → F → ℕ → CsState F → CsState F
  load_command task value slot s =
      let node = node_at s.nodes slot in
      let put = put_command task value (framed slot s) in
      with_windows put
        (clear_command_msg_window node (merge_command_window_to_buffer node (windows_of put)))

  -- `slot` is the place of the task's node; `G_CTX.imsg_ctx` is null until `init`.
  unfoldable pub prepare_command_exchange : Task → F → ℕ → CsState F → CsState F
  prepare_command_exchange task value slot s =
      if not s.ready then s else load_command task value slot s

  abbrev pub arm_node : ℕ → Task → Option ℕ → CsState F → CsState F
  arm_node active task none s = s
  arm_node active task (some slot) s =
      let fresh = record s { bus = ibus_reset_frame_layout s.bus } in
      let prepared =
        if is_command task.kind
        then prepare_command_exchange task (get_or s.values active (ops.of_int (pos 1))) slot fresh
        else prepare_data_exchange slot fresh in
      let flag = if is_command task.kind then arp_flag_cmd_req else arp_flag_data_req in
      record prepared {
        bus = start_exchange flag (node_at s.nodes slot).bus_addr prepared.bus;
        sched = record (prepared.sched) {
          tasks = set prepared.sched.tasks active (record task { exchange_armed = true });
        };
      }

  abbrev pub arm_slot : Option ℕ → CsState F → CsState F
  arm_slot none s = s
  arm_slot (some slot) s =
      let task = task_at s.sched slot in
      if leb k_max_tasks slot
      then s
      else if not task.used || (not task.active || task.exchange_armed)
      then s
      else arm_node slot task task.node s

  unfoldable pub arm_active_exchange : CsState F → CsState F
  arm_active_exchange s = arm_slot s.sched.active_task_slot s

  unfoldable pub icsscheduler : CsState F → CsState F
  icsscheduler s = if s.bus.exchange_busy then s else exchange_control s

  -- `IBUSEXCHANGE`, without hooks' data: the shared bus, and the state of CS.
  unfoldable pub ibusexchange :
      BusHooks (CsState F) → MockBusState × CsState F → MockBusState × CsState F
  ibusexchange hooks (shared, s) =
      let armed = if s.bus.exchange_busy then s else arm_active_exchange s in
      let world = ibus_exchange hooks (record { state = armed.bus; bus = shared; user = armed }) in
      (world.bus, record (world.user) { bus = world.state })
