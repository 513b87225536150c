-- ===== src/MsgBlock/Examples.antt =====
-- Concrete runs of i_msg_block.cpp.
use arachnopod.Base.{
  ℕ, true, false, some, List, [], ◌∷◌, ◌≡◌, refl, inr, arith, ltb, leb, ◌&&◌, pos,
}
use arachnopod.Base.{min, length, get_or, ◌+◌, ◌-◌, if◌then◌else◌, ◌==◌}
use arachnopod.MsgBlock.{
  layout_supported, write_field, read_value, write_value, set_lo, set_hi, copy_blocks, read_byte,
  write_byte,
}
use arachnopod.MsgBlock.Fields.{stored}
use arachnopod.MsgBlock.Fields.{is_some}
use arachnopod.MsgBlock.Values.{
  IsBlocks, write_value_accepts, read_value-write_value, read_value-write_value_apart,
}
use arachnopod.MsgBlock.Bytes.{read_byte-write_byte}
use arachnopod.MsgBlock.Copy.{copy_blocks_lem}

abbrev two_blocks : List ℕ
two_blocks = 4660 ∷ 22136 ∷ []

abbrev changed_blocks : List ℕ
changed_blocks = 4660 ∷ 43896 ∷ []

two_blocks-IsBlocks : IsBlocks two_blocks
two_blocks-IsBlocks = (omega arith, (omega arith, tt))

high_written : write_value (some two_blocks) 2 1 8 8 171 ≡ (true, some changed_blocks)
unfolding write_value write_field layout_supported set_lo set_hi
high_written = refl

byte_written : (write_byte (some two_blocks) 2 3 171).1 ≡ some changed_blocks
unfolding write_byte set_lo set_hi
byte_written = refl

read_value-write_value_example : read_value (some changed_blocks) 2 1 8 8 ≡ some (stored 8 171)
read_value-write_value_example =
    read_value-write_value two_blocks 2 1 8 8 171 two_blocks-IsBlocks (omega arith) high_written

read_value-write_value_apart_example :
    read_value (some changed_blocks) 2 1 0 8 ≡ read_value (some two_blocks) 2 1 0 8
read_value-write_value_apart_example =
    read_value-write_value_apart two_blocks 2 1 8 8 171 1 0 8 two_blocks-IsBlocks (omega arith)
      (inr (inr (omega arith))) high_written

write_value_accepts_example :
    ((write_value (some two_blocks) 2 2 0 8 1).0 ≡ (layout_supported 8 (pos 0) && ltb 2 2))
    × ((write_value (some two_blocks) 2 2 0 8 1).0 ≡ false
        → (write_value (some two_blocks) 2 2 0 8 1).1 ≡ some two_blocks)
    × ((write_value (some two_blocks) 2 2 0 8 1).0 ≡ is_some (read_value (some two_blocks) 2 2 0 8))
write_value_accepts_example = write_value_accepts two_blocks 2 2 0 8 1

read_byte-write_byte_example :
    read_byte (write_byte (some two_blocks) 2 3 171).1 2 3
    ≡ (if 3 == 3 then some 171 else read_byte (some two_blocks) 2 3)
read_byte-write_byte_example =
    read_byte-write_byte two_blocks 2 3 3 171 two_blocks-IsBlocks (omega arith) (omega arith)
      (omega arith)

copy_blocks_lem_example :
    (out : List ℕ) × (copy_blocks (some two_blocks) 2 1 (some changed_blocks) 2 0 5 ≡ some out)
    × (length out ≡ length two_blocks)
    × ((j : ℕ)
        → get_or out j 0 ≡ (
            if leb 1 j && ltb j (1 + min 5 (min (2 - 1) (2 - 0)))
            then get_or changed_blocks (0 + (j - 1)) 0
            else get_or two_blocks j 0))
copy_blocks_lem_example =
    copy_blocks_lem two_blocks 2 1 changed_blocks 2 0 5 (omega arith) (omega arith) (omega arith)
