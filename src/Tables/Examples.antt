-- ===== src/Tables/Examples.antt =====
-- Concrete uses of the tables.
use arachnopod.Base.{ℕ, ◌<◌, true, some, List, ◌≡◌, ◌≢◌, zero, suc, arith, replicate}
use arachnopod.MsgBlock.Fields.{stored}
use arachnopod.MsgBlock.Values.{IsBlocks}
use arachnopod.Tables.Config.{comm_max, param_max, cs_comm_storage_blocks, cs_param_storage_blocks}
use arachnopod.Tables.Rows.{width, cs_block}
use arachnopod.Tables.Layout.{comm_row, param_row, put_row, get_row, comm_image, param_image}

zeros-IsBlocks : (n : ℕ) → IsBlocks (replicate n 0)
zeros-IsBlocks zero = tt
zeros-IsBlocks (suc n) = (omega arith, zeros-IsBlocks n)

abbrev comm_blocks : List ℕ
comm_blocks = replicate 16 0

abbrev param_blocks : List ℕ
param_blocks = replicate 26 0

-- Row 11 is the temperature that LS is set to.
comm_image_example :
    let get = get_row cs_block cs_comm_storage_blocks in
    let put = put_row cs_block cs_comm_storage_blocks comm_blocks (comm_row 11) 21 in
    (put.0 ≡ true)
    × (get put.1 (comm_row 11) ≡ some (stored (width (comm_row 11)) 21))
    × ((j : ℕ)
        → j < comm_max
        → 11 ≢ j
        → get put.1 (comm_row j) ≡ get (some comm_blocks) (comm_row j))
comm_image_example = comm_image comm_blocks 11 21 (zeros-IsBlocks 16) (omega arith) (omega arith)

param_image_example :
    let get = get_row cs_block cs_param_storage_blocks in
    let put = put_row cs_block cs_param_storage_blocks param_blocks (param_row 3) 21 in
    (put.0 ≡ true)
    × (get put.1 (param_row 3) ≡ some (stored (width (param_row 3)) 21))
    × ((j : ℕ)
        → j < param_max
        → 3 ≢ j
        → get put.1 (param_row j) ≡ get (some param_blocks) (param_row j))
param_image_example = param_image param_blocks 3 21 (zeros-IsBlocks 26) (omega arith) (omega arith)
