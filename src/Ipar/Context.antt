-- ===== src/Ipar/Context.antt =====
-- The contexts and layouts of i_par.hpp and i_par.cpp: where the field of an identifier lies.
use arachnopod.Base.{ℕ, ◌-◌, Bool, true, false, ◌&&◌, ◌||◌, not, Option, none, some, List}
use arachnopod.Base.{ltb, leb, ◌==◌, if◌then◌else◌, get_or, pos}
use arachnopod.MsgBlock.{layout_supported}
use arachnopod.Tables.Config.{param_max, param_comm_max, sys_none, type_sign}
use arachnopod.Tables.Entry.{Entry, type_width_bits}
use arachnopod.Tables.Rows.{no_entry}
use arachnopod.Tables.Commands.{base_comm_tab}
use arachnopod.Tables.Params.{base_param_tab}

-- `role_t`
pub data Role : Type 0 where
  cs device : Role

-- `status_t`
pub data ParStatus : Type 0 where
  ok no_context id_out_of_range direction_mismatch system_mismatch null_buffer : ParStatus
  bad_type bad_layout buffer_too_small value_out_of_range : ParStatus

-- `context_t`
pub record ParContext : Type 0 where
  pub role : Role
  pub system_id : ℕ
  pub msg_prm : Option (List ℕ)
  pub msg_prm_blocks : ℕ
  pub msg_cmd : Option (List ℕ)
  pub msg_cmd_blocks : ℕ

-- `resolved_item_t`, without the two buffers, of which the source sets one: the message of the
-- context. The tables' calibration coefficients are whole numbers.
pub record ResolvedItem : Type 0 where
  pub block_count : ℕ
  pub block_n : ℕ
  pub block_offset : ℕ
  pub width_bits : ℕ
  pub wire_signed : Bool
  pub tar_a : ℕ
  pub tar_b : ℕ
  pub tar_c : ℕ
  pub alg : ℕ

-- A status that is not `ok`, or an item.
pub data Resolved : Type 0 where
  refused : ParStatus → Resolved
  item : ResolvedItem → Resolved

abbrev pub is_param_id : ℕ → Bool
is_param_id id = ltb id param_max

abbrev pub is_comm_id : ℕ → Bool
is_comm_id id = not (ltb id param_max) && ltb id param_comm_max

abbrev pub is_some_buf : Option (List ℕ) → Bool
is_some_buf none = false
is_some_buf (some b) = true

-- The block is an `int`, read from a `char` of the table, and is not negative there.
unfoldable pub fill_item_layout : Option (List ℕ) → ℕ → ℕ → Entry → Resolved
fill_item_layout buf block_count block_n e =
    if not (is_some_buf buf) || (block_count == 0)
    then refused null_buffer
    else if type_width_bits e.type == 0
    then refused bad_type
    else if leb block_count block_n
        || not (layout_supported (type_width_bits e.type) (pos e.msg_block_offset))
    then refused bad_layout
    else item (record {
      block_count = block_count;
      block_n = block_n;
      block_offset = e.msg_block_offset;
      width_bits = type_width_bits e.type;
      wire_signed = e.sign == type_sign;
      tar_a = e.tar_a;
      tar_b = e.tar_b;
      tar_c = e.tar_c;
      alg = e.alg;
    })

-- The function of that name in i_par.cpp.
abbrev pub is_system_mismatch : ParContext → ℕ → Bool
is_system_mismatch ctx sys_id =
    if ctx.system_id == sys_none then false else not (ctx.system_id == sys_id)

abbrev pub param_entry : ℕ → Entry
param_entry id = get_or base_param_tab id no_entry

abbrev pub comm_entry : ℕ → Entry
comm_entry id = get_or base_comm_tab (id - param_max) no_entry

abbrev pub resolve_as : Role → ParContext → ℕ → Resolved
resolve_as cs ctx id =
    if not (is_param_id id)
    then refused direction_mismatch
    else fill_item_layout ctx.msg_prm ctx.msg_prm_blocks (param_entry id).msg_cs_block_n
        (param_entry id)
resolve_as device ctx id =
    if not (is_comm_id id)
    then refused direction_mismatch
    else if is_system_mismatch ctx (comm_entry id).sys_id
    then refused system_mismatch
    else fill_item_layout ctx.msg_cmd ctx.msg_cmd_blocks (comm_entry id).msg_block_n (comm_entry id)

unfoldable pub resolve_for_parse : ParContext → ℕ → Resolved
resolve_for_parse ctx id = resolve_as ctx.role ctx id

abbrev pub resolve_out_as : Role → ParContext → ℕ → Resolved
resolve_out_as cs ctx id =
    if not (is_comm_id id)
    then refused direction_mismatch
    else fill_item_layout ctx.msg_cmd ctx.msg_cmd_blocks (comm_entry id).msg_cs_block_n
        (comm_entry id)
resolve_out_as device ctx id =
    if not (is_param_id id)
    then refused direction_mismatch
    else if is_system_mismatch ctx (param_entry id).sys_id
    then refused system_mismatch
    else fill_item_layout ctx.msg_prm ctx.msg_prm_blocks (param_entry id).msg_block_n
        (param_entry id)

unfoldable pub resolve_for_generate : ParContext → ℕ → Resolved
resolve_for_generate ctx id = resolve_out_as ctx.role ctx id

-- The message that a context reads or writes: `read_buf` and `write_buf` of the item.
abbrev pub read_buf_as : Role → ParContext → Option (List ℕ)
read_buf_as cs ctx = ctx.msg_prm
read_buf_as device ctx = ctx.msg_cmd

abbrev pub read_buf : ParContext → Option (List ℕ)
read_buf ctx = read_buf_as ctx.role ctx

abbrev pub write_buf_as : Role → ParContext → Option (List ℕ)
write_buf_as cs ctx = ctx.msg_cmd
write_buf_as device ctx = ctx.msg_prm

abbrev pub write_buf : ParContext → Option (List ℕ)
write_buf ctx = write_buf_as ctx.role ctx

abbrev pub set_write_buf_as : Role → Option (List ℕ) → ParContext → ParContext
set_write_buf_as cs buf ctx = record ctx { msg_cmd = buf }
set_write_buf_as device buf ctx = record ctx { msg_prm = buf }

abbrev pub set_write_buf : Option (List ℕ) → ParContext → ParContext
set_write_buf buf ctx = set_write_buf_as ctx.role buf ctx
