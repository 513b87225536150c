-- ===== src/Icmd/Command.antt =====
-- sub/src/i_cmd.cpp: reading and clearing the commands in the message of a context.
use arachnopod.Base.{ℕ, Bool, false, ◌||◌, not, Option, none, some, ltb, ◌==◌, if◌then◌else◌, ℤ}
use arachnopod.MsgBlock.{read_value, write_value}
use arachnopod.Tables.Config.{param_max, param_comm_max}
use arachnopod.Tables.Entry.{Entry, type_width_bits}
use arachnopod.Ipar.Context.{Role, cs, device, ParStatus, ok, ParContext, comm_entry, is_some_buf}
use arachnopod.Ipar.Floats.{FloatOps}
use arachnopod.Ipar.Access.{imsgget}
use arachnopod.Isim.Values.{lround_i32}

abbrev pub block_n_as : Role → Entry → ℕ
block_n_as cs e = e.msg_cs_block_n
block_n_as device e = e.msg_block_n

-- `read_command_raw`: `none` is the `false` of the source.
unfoldable pub read_command_raw : ParContext → ℕ → Option ℕ
read_command_raw ctx id =
    if not (is_some_buf ctx.msg_cmd) || (ltb id param_max || not (ltb id param_comm_max))
    then none
    else if type_width_bits (comm_entry id).type == 0
    then none
    else read_value ctx.msg_cmd ctx.msg_cmd_blocks (block_n_as ctx.role (comm_entry id))
        (comm_entry id).msg_block_offset (type_width_bits (comm_entry id).type)

abbrev pub is_nonzero : Option ℕ → Bool
is_nonzero none = false
is_nonzero (some raw) = not (raw == 0)

unfoldable pub icmdact : ParContext → ℕ → Bool
icmdact ctx id = is_nonzero (read_command_raw ctx id)

unfoldable pub icmdclear : ParContext → ℕ → ParContext
icmdclear ctx id =
    let written =
      write_value ctx.msg_cmd ctx.msg_cmd_blocks (block_n_as ctx.role (comm_entry id))
        (comm_entry id).msg_block_offset (type_width_bits (comm_entry id).type) 0 in
    if not (is_some_buf ctx.msg_cmd) || (ltb id param_max || not (ltb id param_comm_max))
    then ctx
    else if type_width_bits (comm_entry id).type == 0
    then ctx
    else record ctx { msg_cmd = written.1 }

abbrev pub value_or {ℓ} : {A : Type ℓ} → A → ParStatus × A → A
value_or fallback (ok, value) = value
value_or fallback (_, _) = fallback

module _ {F : Type 0} (ops : FloatOps F) where
  unfoldable pub icmdpar : ParContext → ℕ → ParStatus × F
  unfolding imsgget
  icmdpar ctx id = imsgget ops ctx id

  unfoldable pub icmdf32 : ParContext → ℕ → F → F
  unfolding icmdpar
  icmdf32 ctx id fallback = value_or fallback (imsgget ops ctx id)

  abbrev pub i32_or : ℤ → ParStatus × F → ℤ
  i32_or fallback (ok, value) = lround_i32 ops value
  i32_or fallback (_, _) = fallback

  unfoldable pub icmdval : ParContext → ℕ → ℤ → ℤ
  unfolding imsgget
  icmdval ctx id fallback = i32_or fallback (imsgget ops ctx id)
