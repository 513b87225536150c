-- ===== src/MsgBlock/Values.antt =====
-- `read_value` and `write_value` of i_msg_block.cpp on whole block arrays.
use arachnopod.Base.{ℕ, ◌+◌, ◌≤◌, ◌<◌, true, false, ◌&&◌, Option, none, some, List}
use arachnopod.Base.{◌≡◌, ◌≢◌, ◌⊎◌, refl, ◌∙◌, sym, arith, ltb}
use arachnopod.Base.{
  length, get_or, set, length-set, All, All-set, All-get_or, get_or-set_self, get_or-set_ne, pos,
}
use arachnopod.MsgBlock.{layout_supported, write_field, read_value, write_value}
use arachnopod.MsgBlock.Fields.{
  stored, is_some, read_field-layout, write_field-layout, read_field-write_field, write_field-lt,
  read_field-write_field_apart,
}

-- Every block is a 16-bit word.
abbrev pub IsBlocks : List ℕ → Type 0
IsBlocks = All (λ b. b < 65536)

-- `read_value` succeeds exactly on a supported layout in a block below the count.
pub read_value_accepts :
    (bs : List ℕ) (count n o w : ℕ)
    → is_some (read_value (some bs) count n o w) ≡ (layout_supported w (pos o) && ltb n count)
unfolding read_value layout_supported
read_value_accepts bs count n o w = ground (arith, read_field-layout (get_or bs n 0) o w)

-- On every layout, block number and count, `write_value` accepts exactly what `read_value` accepts,
-- which is a supported layout in a block below the count, and changes nothing where it refuses.
pub write_value_accepts :
    (bs : List ℕ) (count n o w v : ℕ)
    → ((write_value (some bs) count n o w v).0 ≡ (layout_supported w (pos o) && ltb n count))
      × ((write_value (some bs) count n o w v).0 ≡ false
          → (write_value (some bs) count n o w v).1 ≡ some bs)
      × ((write_value (some bs) count n o w v).0 ≡ is_some (read_value (some bs) count n o w))
unfolding write_value layout_supported
write_value_accepts bs count n o w v =
    let accepted : (write_value (some bs) count n o w v).0
        ≡ (layout_supported w (pos o) && ltb n count) =
      ground (arith, write_field-layout (get_or bs n 0) o w v) in
    (
      accepted,
      ground (arith, write_field-layout (get_or bs n 0) o w v),
      accepted ∙ sym (read_value_accepts bs count n o w),
    )

-- What a successful `write_value` did: `b` is the new block at `n`.
record Wrote (bs : List ℕ) (count n o w v : ℕ) (bs' : List ℕ) : Type 0 where
  b : ℕ
  field_is : write_field (get_or bs n 0) o w v ≡ some b
  blocks : bs' ≡ set bs n b
  below : n < count
  wide : w ≢ 0

write_value-Wrote :
    (bs : List ℕ) (count n o w v : ℕ) {bs' : List ℕ}
    → write_value (some bs) count n o w v ≡ (true, some bs')
    → Wrote bs count n o w v bs'
unfolding write_value
write_value-Wrote bs count n o w v {bs'} e = go (write_field (get_or bs n 0) o w v) refl
  where
    go : (r : Option ℕ) → write_field (get_or bs n 0) o w v ≡ r → Wrote bs count n o w v bs'
    go none f = absurd (ground arith)
    go (some b) f = record {
      b = b;
      field_is = f;
      blocks = ground arith;
      below = ground arith;
      wide = ground arith;
    }

pub block-lt : (bs : List ℕ) (n : ℕ) → IsBlocks bs → get_or bs n 0 < 65536
block-lt bs n h = All-get_or (λ b. b < 65536) bs n 0 (omega arith) h

-- In an array of at least `count` blocks, all 16-bit words, a field reads back what a successful
-- write stored in it: the digits of the value that its width keeps.
pub read_value-write_value :
    (bs : List ℕ) (count n o w v : ℕ) {bs' : List ℕ}
    → IsBlocks bs
    → count ≤ length bs
    → write_value (some bs) count n o w v ≡ (true, some bs')
    → read_value (some bs') count n o w ≡ some (stored w v)
unfolding read_value
read_value-write_value bs count n o w v hb hc e =
    let t = write_value-Wrote bs count n o w v e in
    ground (
      arith,
      t,
      get_or-set_self bs n t.b 0,
      read_field-write_field (get_or bs n 0) o w v {b' = t.b} (block-lt bs n hb) t.field_is,
    )

-- A successful write keeps the blocks 16-bit words, in the same number.
pub write_value-IsBlocks :
    (bs : List ℕ) (count n o w v : ℕ) {bs' : List ℕ}
    → IsBlocks bs
    → write_value (some bs) count n o w v ≡ (true, some bs')
    → IsBlocks bs' × (length bs' ≡ length bs)
write_value-IsBlocks bs count n o w v hb e =
    let t = write_value-Wrote bs count n o w v e in
    let lt = write_field-lt (get_or bs n 0) o w v {b' = t.b} (block-lt bs n hb) t.field_is in
    rw t.blocks (All-set (λ b. b < 65536) bs n t.b lt hb, length-set bs n t.b)

-- In an array of at least `count` blocks, all 16-bit words, a successful write of one field changes
-- no field that lies in another block, or apart in the same block.
pub read_value-write_value_apart :
    (bs : List ℕ) (count n o w v n' o' w' : ℕ) {bs' : List ℕ}
    → IsBlocks bs
    → count ≤ length bs
    → (n ≢ n') ⊎ ((o + w ≤ o') ⊎ (o' + w' ≤ o))
    → write_value (some bs) count n o w v ≡ (true, some bs')
    → read_value (some bs') count n' o' w' ≡ read_value (some bs) count n' o' w'
unfolding read_value
read_value-write_value_apart bs count n o w v n' o' w' hb hc apart e =
    let t = write_value-Wrote bs count n o w v e in
    ground (
      arith,
      t,
      get_or-set_self bs n t.b 0,
      get_or-set_ne bs n n' t.b 0,
      read_field-write_field_apart (get_or bs n 0) o w v o' w' {b' = t.b} (block-lt bs n hb),
    )

-- A write that reports success leaves an array of blocks.
pub write_value_done :
    (bs : List ℕ) (count n o w v : ℕ)
    → (write_value (some bs) count n o w v).0 ≡ true
    → (bs' : List ℕ) × (write_value (some bs) count n o w v ≡ (true, some bs'))
unfolding write_value
write_value_done bs count n o w v h = go (write_field (get_or bs n 0) o w v) refl
  where
    go :
        (r : Option ℕ)
        → write_field (get_or bs n 0) o w v ≡ r
        → (bs' : List ℕ) × (write_value (some bs) count n o w v ≡ (true, some bs'))
    go none f = absurd (ground arith)
    go (some b) f = (set bs n b, ground arith)
