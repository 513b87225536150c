-- ===== src/Tables/Layout.antt =====
-- The layout of the generated tables: where each row's field lies in the messages.
use arachnopod.Base.{ℕ, ◌≤◌, ◌<◌, Bool, true}
use arachnopod.Base.{Option, some, List, ◌≡◌, ◌≢◌, ◌∙◌, refl, arith}
use arachnopod.Base.{length, get_or}
use arachnopod.MsgBlock.{layout_supported, read_value, write_value}
use arachnopod.MsgBlock.Fields.{stored}
use arachnopod.MsgBlock.Values.{
  IsBlocks, write_value_accepts, write_value_done, read_value-write_value,
  read_value-write_value_apart,
}
use arachnopod.Tables.Config.{comm_max, param_max, cs_comm_storage_blocks, cs_param_storage_blocks}
use arachnopod.Tables.Entry.{Entry, type_width_bits}
use arachnopod.Tables.Commands.{base_comm_tab}
use arachnopod.Tables.Params.{base_param_tab}
use arachnopod.Tables.Rows.{
  no_entry, width, own_block, cs_block, all_rows, all_rows-get_or, apart, apart_all, apart_pairs,
  apart_pairs-get_or, same_system, any_system, place_ok,
}

abbrev pub comm_row : ℕ → Entry
comm_row i = get_or base_comm_tab i no_entry

abbrev pub param_row : ℕ → Entry
param_row i = get_or base_param_tab i no_entry

pub comm_place_ok : all_rows (place_ok cs_block cs_comm_storage_blocks) base_comm_tab ≡ true
unfolding all_rows place_ok layout_supported type_width_bits base_comm_tab
comm_place_ok = refl

pub comm_apart : apart_pairs cs_block any_system base_comm_tab ≡ true
unfolding apart_pairs apart_all apart type_width_bits base_comm_tab
comm_apart = refl

pub comm_own_apart : apart_pairs own_block same_system base_comm_tab ≡ true
unfolding apart_pairs apart_all apart type_width_bits base_comm_tab
comm_own_apart = refl

pub param_place_ok : all_rows (place_ok cs_block cs_param_storage_blocks) base_param_tab ≡ true
unfolding all_rows place_ok layout_supported type_width_bits base_param_tab
param_place_ok = refl

param_apart : apart_pairs cs_block any_system base_param_tab ≡ true
unfolding apart_pairs apart_all apart type_width_bits base_param_tab
param_apart = refl

pub length-base_comm_tab : length base_comm_tab ≡ comm_max
unfolding base_comm_tab
length-base_comm_tab = refl

pub length-base_param_tab : length base_param_tab ≡ param_max
unfolding base_param_tab
length-base_param_tab = refl

-- Writing a row's field in a message, where the rows of a table have supported places and lie
-- apart from one another.
module _ (block : Entry → ℕ) (count : ℕ) where
  abbrev pub put_row : List ℕ → Entry → ℕ → Bool × Option (List ℕ)
  put_row bs e v = write_value (some bs) count (block e) e.msg_block_offset (width e) v

  abbrev pub get_row : Option (List ℕ) → Entry → Option ℕ
  get_row bs e = read_value bs count (block e) e.msg_block_offset (width e)

  row_accepted :
      (bs : List ℕ) (e : Entry) (v : ℕ) → place_ok block count e ≡ true → (put_row bs e v).0 ≡ true
  unfolding place_ok
  row_accepted bs e v h =
      (write_value_accepts bs count (block e) e.msg_block_offset (width e) v).0 ∙ h

  row_reads_back :
      (bs : List ℕ) (e : Entry) (v : ℕ)
      → IsBlocks bs
      → count ≤ length bs
      → place_ok block count e ≡ true
      → get_row (put_row bs e v).1 e ≡ some (stored (width e) v)
  row_reads_back bs e v hb hc h =
      let (bs', done) =
        write_value_done bs count (block e) e.msg_block_offset (width e) v
          (row_accepted bs e v h) in
      rw done (read_value-write_value bs count (block e) e.msg_block_offset (width e) v hb hc done)

  row_kept :
      (bs : List ℕ) (e f : Entry) (v : ℕ)
      → IsBlocks bs
      → count ≤ length bs
      → place_ok block count e ≡ true
      → apart block any_system e f ≡ true
      → get_row (put_row bs e v).1 f ≡ get_row (some bs) f
  unfolding apart
  row_kept bs e f v hb hc h a =
      let (bs', done) =
        write_value_done bs count (block e) e.msg_block_offset (width e) v
          (row_accepted bs e v h) in
      rw done (
        read_value-write_value_apart bs count (block e) e.msg_block_offset (width e) v (block f)
          f.msg_block_offset (width f) hb hc (ground arith) done)

-- In the image of 16 blocks that CS keeps of all commands, in an array of at least as many 16-bit
-- words, every command can be written, reads back what its width keeps, and leaves every other
-- command as it was.
pub comm_image :
    (bs : List ℕ) (i v : ℕ)
    → IsBlocks bs
    → cs_comm_storage_blocks ≤ length bs
    → i < comm_max
    → ((put_row cs_block cs_comm_storage_blocks bs (comm_row i) v).0 ≡ true)
      × (get_row cs_block cs_comm_storage_blocks
            (put_row cs_block cs_comm_storage_blocks bs (comm_row i) v).1
            (comm_row i)
          ≡ some (stored (width (comm_row i)) v))
      × ((j : ℕ)
          → j < comm_max
          → i ≢ j
          → get_row cs_block cs_comm_storage_blocks
              (put_row cs_block cs_comm_storage_blocks bs (comm_row i) v).1
              (comm_row j)
            ≡ get_row cs_block cs_comm_storage_blocks (some bs) (comm_row j))
comm_image bs i v hb hc hi =
    let here : i < length base_comm_tab = omega (arith, length-base_comm_tab) in
    let ok =
      all_rows-get_or (place_ok cs_block cs_comm_storage_blocks) base_comm_tab i comm_place_ok
        here in
    (
      row_accepted cs_block cs_comm_storage_blocks bs (comm_row i) v ok,
      row_reads_back cs_block cs_comm_storage_blocks bs (comm_row i) v hb hc ok,
      λ j hj ne. row_kept cs_block cs_comm_storage_blocks bs (comm_row i) (comm_row j) v hb hc ok (
          apart_pairs-get_or cs_block any_system base_comm_tab i j comm_apart here
            (omega (arith, length-base_comm_tab)) ne),
    )

-- In the image of 26 blocks that CS keeps of all parameters, in an array of at least as many
-- 16-bit words, every parameter can be written, reads back what its width keeps, and leaves every
-- other parameter as it was.
pub param_image :
    (bs : List ℕ) (i v : ℕ)
    → IsBlocks bs
    → cs_param_storage_blocks ≤ length bs
    → i < param_max
    → ((put_row cs_block cs_param_storage_blocks bs (param_row i) v).0 ≡ true)
      × (get_row cs_block cs_param_storage_blocks
            (put_row cs_block cs_param_storage_blocks bs (param_row i) v).1
            (param_row i)
          ≡ some (stored (width (param_row i)) v))
      × ((j : ℕ)
          → j < param_max
          → i ≢ j
          → get_row cs_block cs_param_storage_blocks
              (put_row cs_block cs_param_storage_blocks bs (param_row i) v).1
              (param_row j)
            ≡ get_row cs_block cs_param_storage_blocks (some bs) (param_row j))
param_image bs i v hb hc hi =
    let here : i < length base_param_tab = omega (arith, length-base_param_tab) in
    let ok =
      all_rows-get_or (place_ok cs_block cs_param_storage_blocks) base_param_tab i param_place_ok
        here in
    (
      row_accepted cs_block cs_param_storage_blocks bs (param_row i) v ok,
      row_reads_back cs_block cs_param_storage_blocks bs (param_row i) v hb hc ok,
      λ j hj ne.
          row_kept cs_block cs_param_storage_blocks bs (param_row i) (param_row j) v hb hc ok (
            apart_pairs-get_or cs_block any_system base_param_tab i j param_apart here
              (omega (arith, length-base_param_tab)) ne),
    )
