-- ===== src/Cs/Control.antt =====
-- `init`, `reset`, `finalize_active_task`, `exchange_control`, `cancel_target` and the completions of
-- cs_scheduler.cpp and cs_scheduler_support.cpp. Log lines are not modelled, nor what only they use.
use arachnopod.Base.{ℕ, Bool, true, false, ◌&&◌, ◌||◌, not, Option, none, some, List, [], ◌∷◌, ◌++◌}
use arachnopod.Base.{if◌then◌else◌, get_or, set, replicate}
use arachnopod.Tables.Config.{cs_comm_msg_blocks, cs_comm_buf_blocks}
use arachnopod.Scheduler.Types.{
  Target, any, QueueClass, CompletionKind, command, data_request, CompletionResult, Completion,
}
use arachnopod.Scheduler.State.{Task, SchedulerState, task_at, reset_tasks}
use arachnopod.Scheduler.Queues.{alloc_task_slot, clear_task_slot, queue_task_slot}
use arachnopod.Scheduler.Tasks.{
  find_node_by_target, remove_tasks_for_node, activate_next_task, command_matches_node,
  enqueue_command,
}
use arachnopod.Exchange.Flags.{ExchangeResult}
use arachnopod.Exchange.State.{BusState, ibus_reset_frame_layout}
use arachnopod.Exchange.Frame.{ibus_take_result}
use arachnopod.Cs.Nodes.{NodeLayout, no_node, init_node_layouts}
use arachnopod.Cs.Windows.{
  Windows, clear_command_msg_window, clear_command_buffer_window, clear_pending_command_window,
  save_pending_command_window,
}

-- The globals of the scheduler that are not in `SchedulerState`, and the bus state of CS, whose
-- arrays are those of `G_CTX` once `init` has set it. `values` is the field `command_value` of
-- each slot of `G_TASKS`; the source resets it with the slot and does not read it before the next
-- task is placed there.
pub record CsState (F : Type 0) : Type 0 where
  pub sched : SchedulerState
  pub values : List F
  pub nodes : List NodeLayout
  pub ready : Bool
  pub pending : List (List ℕ)
  pub completions : List Completion
  pub bus : BusState

abbrev pub windows_if : Bool → BusState → List (List ℕ) → Windows
windows_if true bus pending = record {
  msg_cmd = bus.msg_cmd_u16;
  msg_cmd_blocks = cs_comm_msg_blocks;
  msg_cmd_buf = bus.msg_cmd_buf_u16;
  msg_cmd_buf_blocks = cs_comm_buf_blocks;
  pending = pending;
}
windows_if false bus pending = record {
  msg_cmd = none;
  msg_cmd_blocks = 0;
  msg_cmd_buf = none;
  msg_cmd_buf_blocks = 0;
  pending = pending;
}

abbrev pub bus_with : Bool → Windows → BusState → BusState
bus_with true w bus = record bus { msg_cmd_u16 = w.msg_cmd; msg_cmd_buf_u16 = w.msg_cmd_buf }
bus_with false w bus = bus

-- `to_public_completion_result`
unfoldable pub to_public_completion_result : ExchangeResult → CompletionResult
to_public_completion_result ExchangeResult.success = CompletionResult.success
to_public_completion_result ExchangeResult.timeout = CompletionResult.timeout
to_public_completion_result ExchangeResult.invalid_eof = CompletionResult.invalid_eof
to_public_completion_result ExchangeResult.none = CompletionResult.none

abbrev pub is_command : CompletionKind → Bool
is_command command = true
is_command data_request = false

abbrev pub is_delivered : ExchangeResult → Bool
is_delivered ExchangeResult.success = true
is_delivered _ = false

abbrev pub node_at : List NodeLayout → ℕ → NodeLayout
node_at nodes slot = get_or nodes slot no_node

abbrev pub target_of : List NodeLayout → Option ℕ → Target
target_of nodes none = any
target_of nodes (some slot) = (node_at nodes slot).target

-- What a finished command does to the windows of the node in the place `slot`.
unfoldable pub finish_windows : Bool → ExchangeResult → ℕ → NodeLayout → Windows → Windows
finish_windows enabled result slot node w =
    let cleared = clear_command_msg_window node w in
    if not enabled || is_delivered result
    then clear_pending_command_window slot node (clear_command_buffer_window node cleared)
    else save_pending_command_window slot node cleared

-- The active slot after its task: queued again if it is periodic and enabled, else cleared.
abbrev pub requeue_or_clear : ℕ → SchedulerState → SchedulerState
requeue_or_clear slot s =
    let task = task_at s slot in
    if task.used && (task.enabled && task.periodic)
    then queue_task_slot slot s
    else clear_task_slot slot s

abbrev pub end_task : ℕ → SchedulerState → SchedulerState
end_task slot s =
    let ended = record s {
      tasks = set s.tasks slot (record (task_at s slot) { active = false; exchange_armed = false });
    } in
    record (requeue_or_clear slot ended) { active_task_slot = none }

abbrev pub completion_of : List NodeLayout → Task → ExchangeResult → Completion
completion_of nodes task result = record {
  valid = true;
  target = target_of nodes task.node;
  kind = task.kind;
  periodic = task.periodic;
  have_result = true;
  result = to_public_completion_result result;
}

abbrev pub matches : Option ℕ → ℕ → Bool
matches none command_id = false
matches (some node) command_id = command_matches_node node command_id

module _ {F : Type 0} where
  abbrev pub windows_of : CsState F → Windows
  windows_of s = windows_if s.ready s.bus s.pending

  abbrev pub with_windows : CsState F → Windows → CsState F
  with_windows s w = record s { bus = bus_with s.ready w s.bus; pending = w.pending }

  abbrev pub finish_command : Task → Option ℕ → ExchangeResult → CsState F → CsState F
  finish_command task none result s = s
  finish_command task (some slot) result s =
      if is_command task.kind
      then with_windows s
          (finish_windows task.enabled result slot (node_at s.nodes slot) (windows_of s))
      else s

  -- With the result that the bus has, if it has one.
  abbrev pub finalize_with :
      ℕ → Option ExchangeResult × BusState → CsState F → Option Completion × CsState F
  finalize_with slot (none, bus) s = (none, s)
  finalize_with slot (some result, bus) s =
      let task = task_at s.sched slot in
      let finished =
        finish_command task task.node result (record s { bus = ibus_reset_frame_layout bus }) in
      (
        some (completion_of s.nodes task result),
        record finished { sched = end_task slot finished.sched },
      )

  abbrev pub finalize_slot : Option ℕ → CsState F → Option Completion × CsState F
  finalize_slot none s = (none, s)
  finalize_slot (some slot) s =
      if not (task_at s.sched slot).exchange_armed
      then (none, s)
      else finalize_with slot (ibus_take_result s.bus) s

  -- `none` is a completion that is not valid. The completion is the public one, which
  -- `exchange_control` makes of it.
  unfoldable pub finalize_active_task : CsState F → Option Completion × CsState F
  finalize_active_task s = finalize_slot s.sched.active_task_slot s

  abbrev pub activate_if_idle : Option ℕ → CsState F → CsState F
  activate_if_idle (some slot) s = s
  activate_if_idle none s = record s { sched = activate_next_task s.sched }

  abbrev pub after_finalize : Option Completion × CsState F → CsState F
  after_finalize (some completion, s) = record s {
    completions = s.completions ++ (completion ∷ []);
  }
  after_finalize (none, s) = activate_if_idle s.sched.active_task_slot s

  unfoldable pub exchange_control : CsState F → CsState F
  exchange_control s = if not s.ready then s else after_finalize (finalize_active_task s)

  -- The first completion, or `none` for `false`.
  abbrev pub pop_completion : List Completion → CsState F → Option Completion × CsState F
  pop_completion [] s = (none, s)
  pop_completion (c ∷ cs) s = (some c, record s { completions = cs })

  unfoldable pub try_pop_completion : CsState F → Option Completion × CsState F
  try_pop_completion s = pop_completion s.completions s

  abbrev pub clear_windows : ℕ → CsState F → CsState F
  clear_windows slot s =
      let node = node_at s.nodes slot in
      with_windows s (
        clear_command_msg_window node (
          clear_command_buffer_window node (clear_pending_command_window slot node (windows_of s))))

  abbrev pub cancel_node : Option ℕ → CsState F → ℕ × CsState F
  cancel_node none s = (0, s)
  cancel_node (some slot) s =
      let (removed, sched) = remove_tasks_for_node slot s.sched in
      (removed, clear_windows slot (record s { sched = sched }))

  unfoldable pub cancel_target : Target → CsState F → ℕ × CsState F
  cancel_target target s = cancel_node (find_node_by_target target) s

  -- `init` with the arrays of the bus state.
  unfoldable pub init_scheduler : CsState F → CsState F
  init_scheduler s = record s { nodes = init_node_layouts s.nodes; ready = true }

  unfoldable pub reset_scheduler : CsState F → CsState F
  unfolding reset_tasks
  reset_scheduler s = record s {
    sched = reset_tasks;
    completions = [];
    pending = replicate 5 (replicate cs_comm_buf_blocks 0);
  }

  -- The value of a command is stored in the slot that `add_task` allocates.
  abbrev pub store_value : Bool → Option ℕ → F → List F → List F
  store_value accepted none value values = values
  store_value accepted (some slot) value values = if accepted then set values slot value else values

  unfoldable pub enqueue_command_value :
      Target → ℕ → F → Bool → QueueClass → CsState F → ℕ × CsState F
  enqueue_command_value target command_id value has_value queue s =
      let (id, sched) = enqueue_command target command_id has_value queue s.sched in
      (
        id,
        record s {
          sched = sched;
          values =
              store_value (matches (find_node_by_target target) command_id)
                (alloc_task_slot s.sched) value s.values;
        },
      )
