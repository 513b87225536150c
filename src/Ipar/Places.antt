-- ===== src/Ipar/Places.antt =====
-- Where the two roles of i_par.cpp find the row of a parameter or a command, and the word of it.
use arachnopod.Base.{ℕ, ◌-◌, ◌≤◌, ◌<◌, true, false, Option, some, List}
use arachnopod.Base.{◌≡◌, refl, arith, ltb, pos}
use arachnopod.MsgBlock.{layout_supported}
use arachnopod.Tables.Config.{
  param_max, param_comm_max, cs_comm_storage_blocks, cs_param_storage_blocks,
}
use arachnopod.Tables.Entry.{Entry, type_width_bits}
use arachnopod.Tables.Rows.{place_ok, cs_block, all_rows-get_or}
use arachnopod.Tables.Commands.{base_comm_tab}
use arachnopod.Tables.Params.{base_param_tab}
use arachnopod.Tables.Layout.{
  comm_place_ok, param_place_ok, length-base_comm_tab, length-base_param_tab,
}
use arachnopod.Ipar.Context.{
  cs, device, ParContext, resolve_for_parse, resolve_for_generate, param_entry, comm_entry,
  is_system_mismatch, item, set_write_buf, write_buf, read_buf,
}
use arachnopod.Ipar.RoundTrip.{item_of, fill_item_layout-item}

supported :
    (block : Entry → ℕ) (count : ℕ) (e : Entry)
    → place_ok block count e ≡ true
    → layout_supported (type_width_bits e.type) (pos e.msg_block_offset) ≡ true
unfolding place_ok
supported block count e h = ground arith

pub param-supported :
    (id : ℕ)
    → id < param_max
    → layout_supported
        (type_width_bits (param_entry id).type)
        (pos (param_entry id).msg_block_offset)
      ≡ true
param-supported id lt = supported cs_block cs_param_storage_blocks (param_entry id) (
    all_rows-get_or (place_ok cs_block cs_param_storage_blocks) base_param_tab id param_place_ok
      (omega (arith, length-base_param_tab)))

pub comm-supported :
    (id : ℕ)
    → param_max ≤ id
    → id < param_comm_max
    → layout_supported (type_width_bits (comm_entry id).type) (pos (comm_entry id).msg_block_offset)
      ≡ true
comm-supported id ge lt = supported cs_block cs_comm_storage_blocks (comm_entry id) (
    all_rows-get_or (place_ok cs_block cs_comm_storage_blocks) base_comm_tab (id - param_max)
      comm_place_ok (omega (arith, length-base_comm_tab)))

-- Where the two roles find a row.
pub generate-device :
    (ctx : ParContext) (id : ℕ) (bs : List ℕ)
    → ctx.role ≡ device
    → id < param_max
    → is_system_mismatch ctx (param_entry id).sys_id ≡ false
    → ctx.msg_prm ≡ some bs
    → (param_entry id).msg_block_n < ctx.msg_prm_blocks
    → (resolve_for_generate ctx id
        ≡ item (item_of ctx.msg_prm_blocks (param_entry id).msg_block_n (param_entry id)))
      × (write_buf ctx ≡ some bs)
unfolding resolve_for_generate
generate-device ctx id bs r lt own b room =
    let e = param_entry id in
    let layout =
      fill_item_layout-item bs ctx.msg_prm_blocks e.msg_block_n e room (param-supported id lt) in
    let inside : ltb id param_max ≡ true = ground arith in simp (r, inside, own, b) (layout, refl)

pub parse-cs :
    (ctx : ParContext) (id : ℕ) (bs : List ℕ)
    → ctx.role ≡ cs
    → id < param_max
    → ctx.msg_prm ≡ some bs
    → (param_entry id).msg_cs_block_n < ctx.msg_prm_blocks
    → (resolve_for_parse ctx id
        ≡ item (item_of ctx.msg_prm_blocks (param_entry id).msg_cs_block_n (param_entry id)))
      × (read_buf ctx ≡ some bs)
unfolding resolve_for_parse
parse-cs ctx id bs r lt b room =
    let e = param_entry id in
    let layout =
      fill_item_layout-item bs ctx.msg_prm_blocks e.msg_cs_block_n e room (param-supported id lt) in
    let inside : ltb id param_max ≡ true = ground arith in simp (r, inside, b) (layout, refl)

pub generate-cs :
    (ctx : ParContext) (id : ℕ) (bs : List ℕ)
    → ctx.role ≡ cs
    → param_max ≤ id
    → id < param_comm_max
    → ctx.msg_cmd ≡ some bs
    → (comm_entry id).msg_cs_block_n < ctx.msg_cmd_blocks
    → (resolve_for_generate ctx id
        ≡ item (item_of ctx.msg_cmd_blocks (comm_entry id).msg_cs_block_n (comm_entry id)))
      × (write_buf ctx ≡ some bs)
unfolding resolve_for_generate
generate-cs ctx id bs r ge lt b room =
    let e = comm_entry id in
    let layout =
      fill_item_layout-item bs ctx.msg_cmd_blocks e.msg_cs_block_n e room
        (comm-supported id ge lt) in
    let above : ltb id param_max ≡ false = ground arith in
    let below : ltb id param_comm_max ≡ true = ground arith in
    simp (r, above, below, b) (layout, refl)

pub parse-device :
    (ctx : ParContext) (id : ℕ) (bs : List ℕ)
    → ctx.role ≡ device
    → param_max ≤ id
    → id < param_comm_max
    → is_system_mismatch ctx (comm_entry id).sys_id ≡ false
    → ctx.msg_cmd ≡ some bs
    → (comm_entry id).msg_block_n < ctx.msg_cmd_blocks
    → (resolve_for_parse ctx id
        ≡ item (item_of ctx.msg_cmd_blocks (comm_entry id).msg_block_n (comm_entry id)))
      × (read_buf ctx ≡ some bs)
unfolding resolve_for_parse
parse-device ctx id bs r ge lt own b room =
    let e = comm_entry id in
    let layout =
      fill_item_layout-item bs ctx.msg_cmd_blocks e.msg_block_n e room (comm-supported id ge lt) in
    let above : ltb id param_max ≡ false = ground arith in
    let below : ltb id param_comm_max ≡ true = ground arith in
    simp (r, above, below, own, b) (layout, refl)

pub write-device :
    (ctx : ParContext) (b : Option (List ℕ))
    → ctx.role ≡ device
    → set_write_buf b ctx ≡ record ctx { msg_prm = b }
write-device ctx b r = simp r

pub write-cs :
    (ctx : ParContext) (b : Option (List ℕ))
    → ctx.role ≡ cs
    → set_write_buf b ctx ≡ record ctx { msg_cmd = b }
write-cs ctx b r = simp r
