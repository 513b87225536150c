-- ===== src/Cs/Windows.antt =====
-- The command windows of cs_scheduler_support.cpp: a node's commands in the image of CS, in the
-- transport buffer, and those that are kept until they are delivered.
use arachnopod.Base.{
  ℕ, ◌||◌, not, Option, none, some, List, [], ◌∷◌, leb, ◌==◌, if◌then◌else◌, get_or, set, length,
}
use arachnopod.MsgBlock.{read_value, write_value, copy_blocks}
use arachnopod.Sys.{isysclear}
use arachnopod.Tables.Config.{cs_comm_buf_blocks}
use arachnopod.Tables.Entry.{Entry, type_width_bits}
use arachnopod.Tables.Commands.{base_comm_tab}
use arachnopod.Ipar.Context.{is_some_buf}
use arachnopod.Cs.Nodes.{NodeLayout, window_fits}

-- The arrays of `G_CTX`, at null while it is not set, and `G_PENDING_CMD`.
pub record Windows : Type 0 where
  pub msg_cmd : Option (List ℕ)
  pub msg_cmd_blocks : ℕ
  pub msg_cmd_buf : Option (List ℕ)
  pub msg_cmd_buf_blocks : ℕ
  pub pending : List (List ℕ)

unfoldable pub clear_command_msg_window : NodeLayout → Windows → Windows
clear_command_msg_window node w =
    if not (is_some_buf w.msg_cmd)
    then w
    else if not (window_fits node.com_cs_base_block node.com_blocks w.msg_cmd_blocks)
    then w
    else record w { msg_cmd = isysclear w.msg_cmd node.com_cs_base_block node.com_blocks }

unfoldable pub clear_command_buffer_window : NodeLayout → Windows → Windows
clear_command_buffer_window node w =
    if not (is_some_buf w.msg_cmd_buf)
    then w
    else if not (window_fits 0 node.com_blocks w.msg_cmd_buf_blocks)
    then w
    else record w { msg_cmd_buf = isysclear w.msg_cmd_buf 0 node.com_blocks }

abbrev pub pending_at : Windows → ℕ → List ℕ
pending_at w slot = get_or w.pending slot []

abbrev pub set_pending : ℕ → Option (List ℕ) → Windows → Windows
set_pending slot none w = w
set_pending slot (some words) w = record w { pending = set w.pending slot words }

-- A node is given with its place in `G_NODES`, its `node_slot`.
unfoldable pub clear_pending_command_window : ℕ → NodeLayout → Windows → Windows
clear_pending_command_window slot node w =
    if leb (length w.pending) slot
    then w
    else set_pending slot (isysclear (some (pending_at w slot)) 0 node.com_blocks) w

unfoldable pub load_pending_command_window : ℕ → NodeLayout → Windows → Windows
load_pending_command_window slot node w =
    if leb (length w.pending) slot || not (is_some_buf w.msg_cmd_buf)
    then w
    else if not (window_fits 0 node.com_blocks w.msg_cmd_buf_blocks)
    then w
    else record w {
      msg_cmd_buf =
          copy_blocks w.msg_cmd_buf w.msg_cmd_buf_blocks 0 (some (pending_at w slot))
            cs_comm_buf_blocks 0 node.com_blocks;
    }

unfoldable pub save_pending_command_window : ℕ → NodeLayout → Windows → Windows
save_pending_command_window slot node w =
    if leb (length w.pending) slot || not (is_some_buf w.msg_cmd_buf)
    then w
    else if not (window_fits 0 node.com_blocks w.msg_cmd_buf_blocks)
    then w
    else set_pending slot
        (copy_blocks (some (pending_at w slot)) cs_comm_buf_blocks 0 w.msg_cmd_buf
          w.msg_cmd_buf_blocks 0 node.com_blocks)
        w

-- One row of the loop of `merge_command_window_to_buffer`: the field's new place in the buffer.
abbrev pub merge_field : Option ℕ → Entry → ℕ → Option (List ℕ) → Option (List ℕ)
merge_field none e blocks buf = buf
merge_field (some raw) e blocks buf =
    if raw == 0
    then buf
    else (write_value buf blocks e.msg_block_n e.msg_block_offset (type_width_bits e.type) raw).1

unfoldable pub merge_command :
    ℕ → Option (List ℕ) → ℕ → Entry → ℕ → Option (List ℕ) → Option (List ℕ)
merge_command system_id cmd cmd_blocks e buf_blocks buf =
    if not (e.sys_id == system_id)
    then buf
    else if type_width_bits e.type == 0
    then buf
    else merge_field
        (read_value cmd cmd_blocks e.msg_cs_block_n e.msg_block_offset (type_width_bits e.type)) e
        buf_blocks buf

unfoldable pub merge_commands :
    List Entry → ℕ → Option (List ℕ) → ℕ → ℕ → Option (List ℕ) → Option (List ℕ)
merge_commands [] system_id cmd cmd_blocks buf_blocks buf = buf
merge_commands (e ∷ es) system_id cmd cmd_blocks buf_blocks buf =
    merge_commands es system_id cmd cmd_blocks buf_blocks
      (merge_command system_id cmd cmd_blocks e buf_blocks buf)

unfoldable pub merge_command_window_to_buffer : NodeLayout → Windows → Windows
merge_command_window_to_buffer node w =
    if not (is_some_buf w.msg_cmd) || not (is_some_buf w.msg_cmd_buf) then w else record w {
      msg_cmd_buf =
          merge_commands base_comm_tab node.system_id w.msg_cmd w.msg_cmd_blocks
            w.msg_cmd_buf_blocks w.msg_cmd_buf;
    }
