-- ===== src/MsgBlock/Copy.antt =====
-- `copy_blocks` of i_msg_block.cpp: which words the clipped copy writes.
use arachnopod.Base.{ℕ, zero, suc, ◌+◌, ◌-◌, ◌≤◌, ◌<◌, min, ◌&&◌, some, List}
use arachnopod.Base.{◌≡◌, refl, ◌∙◌, arith, ltb, leb, if◌then◌else◌}
use arachnopod.Base.{length, get_or, set, length-set, get_or-set_self, get_or-set_ne}
use arachnopod.MsgBlock.{copy_loop, copy_blocks}

-- The loop keeps the length.
length-copy_loop :
    (left i : ℕ) (dst : List ℕ) (d : ℕ) (src : List ℕ) (s : ℕ)
    → length (copy_loop left i dst d src s) ≡ length dst
unfolding copy_loop
length-copy_loop zero i dst d src s = refl
length-copy_loop (suc left) i dst d src s =
    length-copy_loop left (i + 1) (set dst (d + i) (get_or src (s + i) 0)) d src s
    ∙ length-set dst (d + i) (get_or src (s + i) 0)

copy_loop-get_or :
    (left i : ℕ) (dst : List ℕ) (d : ℕ) (src : List ℕ) (s j : ℕ)
    → d + i + left ≤ length dst
    → get_or (copy_loop left i dst d src s) j 0 ≡ (
        if leb (d + i) j && ltb j (d + i + left)
        then get_or src (s + (j - d)) 0
        else get_or dst j 0)
unfolding copy_loop
copy_loop-get_or zero i dst d src s j h = ground arith
copy_loop-get_or (suc left) i dst d src s j h =
    let v = get_or src (s + i) 0 in
    ground (
      arith,
      copy_loop-get_or left (i + 1) (set dst (d + i) v) d src s j,
      length-set dst (d + i) v,
      get_or-set_self dst (d + i) v 0,
      get_or-set_ne dst (d + i) j v 0,
    )

copy_loop_none :
    (left : ℕ) (dst : List ℕ) (d : ℕ) (src : List ℕ) (s : ℕ)
    → left ≡ 0
    → dst ≡ copy_loop left 0 dst d src s
unfolding copy_loop
copy_loop_none zero dst d src s e = refl
copy_loop_none (suc left) dst d src s e = absurd (omega arith)

-- With counts that the arrays have and both offsets below the counts, `copy_blocks` keeps the
-- length, writes the words `dst_offset + k` for `k` below the clipped count from
-- `src_offset + k`, and changes no other.
pub copy_blocks_lem :
    (dst : List ℕ) (dn d : ℕ) (src : List ℕ) (sn s n : ℕ)
    → dn ≤ length dst
    → d < dn
    → s < sn
    → (out : List ℕ) × (copy_blocks (some dst) dn d (some src) sn s n ≡ some out)
      × (length out ≡ length dst)
      × ((j : ℕ)
          → get_or out j 0 ≡ (
              if leb d j && ltb j (d + min n (min (dn - d) (sn - s)))
              then get_or src (s + (j - d)) 0
              else get_or dst j 0))
unfolding copy_blocks
copy_blocks_lem dst dn d src sn s n hd h k = (
  copy_loop c 0 dst d src s,
  ground (arith, copy_loop_none c dst d src s),
  length-copy_loop c 0 dst d src s,
  λ j. ground (arith, copy_loop-get_or c 0 dst d src s j),
)
  where
    c : ℕ
    c = min n (min (dn - d) (sn - s))
