-- ===== src/Ipar/Access.antt =====
-- IMSGGET and IMSGSET of i_par.cpp, over the floating point arithmetic `ops`.
use arachnopod.Base.{ℕ, ◌&&◌, not, Option, none, some, pos, if◌then◌else◌}
use arachnopod.MsgBlock.{read_value, write_value}
use arachnopod.Ipar.Codes.{decode_raw, encode_to_bits}
use arachnopod.Ipar.Context.{
  ParStatus, ok, no_context, id_out_of_range, buffer_too_small, ParContext, ResolvedItem, Resolved,
  refused, item, is_param_id, is_comm_id, resolve_for_parse, resolve_for_generate, read_buf,
  write_buf, set_write_buf,
}
use arachnopod.Ipar.Floats.{FloatOps}
use arachnopod.Ipar.Convert.{decode_processed, Prepared, failed, raw_value, prepare_raw_value}

module _ {F : Type 0} (ops : FloatOps F) where
  abbrev pub zero_value : F
  zero_value = ops.of_int (pos 0)

  abbrev pub parsed_value : ResolvedItem → Option ℕ → ParStatus × F
  parsed_value i none = (buffer_too_small, zero_value)
  parsed_value i (some raw) = (
    ok,
    ops.to_float (decode_processed ops i (ops.of_int (decode_raw raw i.width_bits i.wire_signed))),
  )

  abbrev pub get_resolved : ParContext → Resolved → ParStatus × F
  get_resolved ctx (refused status) = (status, zero_value)
  get_resolved ctx (item i) =
      parsed_value i (read_value (read_buf ctx) i.block_count i.block_n i.block_offset i.width_bits)

  unfoldable pub imsgget : ParContext → ℕ → ParStatus × F
  imsgget ctx id =
      if not (is_param_id id) && not (is_comm_id id)
      then (id_out_of_range, zero_value)
      else get_resolved ctx (resolve_for_parse ctx id)

  -- The wrappers use the context that `bind_context` stored, if there is one.
  unfoldable pub imsgget_bound : Option ParContext → ℕ → ParStatus × F
  unfolding imsgget
  imsgget_bound none id = (no_context, zero_value)
  imsgget_bound (some ctx) id = imsgget ctx id

  abbrev pub write_prepared : ParContext → ResolvedItem → Prepared → ParStatus × ParContext
  write_prepared ctx i (failed status) = (status, ctx)
  write_prepared ctx i (raw_value z) =
      let written =
        write_value (write_buf ctx) i.block_count i.block_n i.block_offset i.width_bits
          (encode_to_bits z i.width_bits) in
      if written.0 then (ok, set_write_buf written.1 ctx) else (buffer_too_small, ctx)

  abbrev pub set_resolved : ParContext → F → Resolved → ParStatus × ParContext
  set_resolved ctx value (refused status) = (status, ctx)
  set_resolved ctx value (item i) = write_prepared ctx i (prepare_raw_value ops i value)

  unfoldable pub imsgset : ParContext → ℕ → F → ParStatus × ParContext
  imsgset ctx id value =
      if not (is_param_id id) && not (is_comm_id id)
      then (id_out_of_range, ctx)
      else set_resolved ctx value (resolve_for_generate ctx id)

  unfoldable pub imsgset_bound : Option ParContext → ℕ → F → ParStatus × Option ParContext
  unfolding imsgset
  imsgset_bound none id value = (no_context, none)
  imsgset_bound (some ctx) id value =
      let (status, ctx') = imsgset ctx id value in (status, some ctx')
