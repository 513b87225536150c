-- ===== src/MsgBlock.antt =====
-- software/sim/sim/systems/sub/interface/i_msg_block.hpp and sub/src/i_msg_block.cpp: reading and
-- writing 1, 8 and 16 bit fields of 16-bit message blocks. A block pointer is an `Option` of the
-- words it points at (`none` is nullptr), and a block count stands beside it as in the source.
-- A block is a number below 2 ^ 16; its union `view_t` is the functions of this file.
mod Examples
pub mod Fields
pub mod Values
pub mod Bytes
pub mod Copy
use arachnopod.Base.{ℕ, zero, suc, ◌+◌, ◌-◌, ◌*◌, ◌/◌, ◌%◌, min, Bool, true, false, ◌||◌}
use arachnopod.Base.{Option, none, some, List, u8, u16, ltb, leb, ◌==◌, if◌then◌else◌}
use arachnopod.Base.{get_or, set, bit, put_bit, ℤ, pos, negsuc}

abbrev pub k_block_bits : ℕ
k_block_bits = 16

abbrev pub k_block_bytes : ℕ
k_block_bytes = 2

-- `view_t::bytes`, on a little-endian target.
unfoldable pub lo : ℕ → ℕ
lo raw = raw % 256

unfoldable pub hi : ℕ → ℕ
hi raw = raw / 256 % 256

unfoldable pub set_lo : ℕ → ℕ → ℕ
set_lo raw v = raw / 256 * 256 + v

unfoldable pub set_hi : ℕ → ℕ → ℕ
set_hi raw v = v * 256 + raw % 256

-- The sixteen cases of the switch are the digits of the word; others are refused.
pub read_discrete : ℕ → ℕ → Option ℕ
read_discrete block offset = if ltb offset k_block_bits then some (bit offset block) else none

-- `none` is the `false` of the source, which leaves the block as it is.
pub write_discrete : ℕ → ℕ → Bool → Option ℕ
write_discrete block offset value =
    if ltb offset k_block_bits then some (put_bit offset (if value then 1 else 0) block) else none

unfoldable pub layout_supported : ℕ → ℤ → Bool
layout_supported width (negsuc n) = false
layout_supported width (pos offset) =
    if leb k_block_bits offset
    then false
    else if width == 1
    then true
    else if width == 8
    then (offset == 0) || (offset == 8)
    else if width == 16
    then offset == 0
    else false

-- The switch on the width in `read_value`.
unfoldable pub read_field : ℕ → ℕ → ℕ → Option ℕ
unfolding read_discrete lo hi
read_field block offset width =
    if width == 1
    then read_discrete block offset
    else if width == 8
    then (if offset == 0 then some (lo block) else if offset == 8 then some (hi block) else none)
    else if width == 16
    then (if offset == 0 then some block else none)
    else none

-- The switch on the width in `write_value`: the new block, or `none` for `return false`.
unfoldable pub write_field : ℕ → ℕ → ℕ → ℕ → Option ℕ
unfolding write_discrete set_lo set_hi
write_field block offset width raw =
    if width == 1
    then write_discrete block offset (if raw == 0 then false else true)
    else if width == 8
    then (if offset == 0
        then some (set_lo block (u8 raw))
        else if offset == 8
        then some (set_hi block (u8 raw))
        else none)
    else if width == 16
    then (if offset == 0 then some (u16 raw) else none)
    else none

-- `none` is the `false` of the source, which writes nothing to `out_raw`.
unfoldable pub read_value : Option (List ℕ) → ℕ → ℕ → ℕ → ℕ → Option ℕ
read_value none count n offset width = none
read_value (some blocks) count n offset width =
    if (width == 0) || leb count n then none else read_field (get_or blocks n 0) offset width

abbrev pub store : List ℕ → ℕ → Option ℕ → Bool × Option (List ℕ)
store blocks n none = (false, some blocks)
store blocks n (some block) = (true, some (set blocks n block))

unfoldable pub write_value : Option (List ℕ) → ℕ → ℕ → ℕ → ℕ → ℕ → Bool × Option (List ℕ)
write_value none count n offset width raw = (false, none)
write_value (some blocks) count n offset width raw =
    if (width == 0) || leb count n
    then (false, some blocks)
    else store blocks n (write_field (get_or blocks n 0) offset width raw)

unfoldable pub read_byte : Option (List ℕ) → ℕ → ℕ → Option ℕ
unfolding lo hi
read_byte none count i = none
read_byte (some blocks) count i =
    let block = get_or blocks (i / k_block_bytes) 0 in
    if leb count (i / k_block_bytes)
    then none
    else some (if i % k_block_bytes == 0 then lo block else hi block)

unfoldable pub write_byte : Option (List ℕ) → ℕ → ℕ → ℕ → Bool × Option (List ℕ)
unfolding set_lo set_hi
write_byte none count i value = (false, none)
write_byte (some blocks) count i value =
    let n = i / k_block_bytes in
    let block = get_or blocks n 0 in
    if leb count n
    then (false, some blocks)
    else store blocks n
        (some (if i % k_block_bytes == 0 then set_lo block value else set_hi block value))

-- The loop of `copy_blocks`: the rounds left, then the index of the round.
unfoldable pub copy_loop : ℕ → ℕ → List ℕ → ℕ → List ℕ → ℕ → List ℕ
copy_loop zero i dst dst_offset src src_offset = dst
copy_loop (suc left) i dst dst_offset src src_offset =
    copy_loop left (i + 1) (set dst (dst_offset + i) (get_or src (src_offset + i) 0)) dst_offset src
      src_offset

-- `dst` and `src` do not overlap. The result is the words at `dst`.
unfoldable pub copy_blocks : Option (List ℕ) → ℕ → ℕ → Option (List ℕ) → ℕ → ℕ → ℕ → Option (List ℕ)
copy_blocks none dst_count dst_offset src src_count src_offset blocks_to_copy = none
copy_blocks (some dst) dst_count dst_offset none src_count src_offset blocks_to_copy = some dst
copy_blocks (some dst) dst_count dst_offset (some src) src_count src_offset blocks_to_copy =
    let count = min blocks_to_copy (min (dst_count - dst_offset) (src_count - src_offset)) in
    if blocks_to_copy == 0
    then some dst
    else if leb dst_count dst_offset || leb src_count src_offset
    then some dst
    else some (copy_loop count 0 dst dst_offset src src_offset)
