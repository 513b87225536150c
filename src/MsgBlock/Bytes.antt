-- ===== src/MsgBlock/Bytes.antt =====
-- `read_byte` and `write_byte` of i_msg_block.cpp: the byte view of the blocks.
use arachnopod.Base.{ℕ, ◌*◌, ◌/◌, ◌%◌, ◌≤◌, ◌<◌, some, List}
use arachnopod.Base.{
  ◌≡◌, refl, ◌⊎◌, inl, inr, leb, Bool-cases, arith, ◌==◌, if◌then◌else◌, length, get_or, set,
}
use arachnopod.Base.{
  get_or-set_self, get_or-set_ne, length-set, All, All-set, zero, suc, ◌+◌, ◌-◌, Option, [], ◌∷◌,
  ◌&&◌, ltb, ◌∙◌,
}
use arachnopod.MsgBlock.{read_field, read_value, read_byte, write_byte, set_lo, set_hi}
use arachnopod.MsgBlock.Values.{IsBlocks, block-lt}

-- The byte `i` is the 8 bit field of block `i / 2` at offset 0 or 8.
pub read_byte-eq-read_value :
    (bs : List ℕ) (count i : ℕ)
    → read_byte (some bs) count i ≡ read_value (some bs) count (i / 2) (8 * (i % 2)) 8
unfolding read_byte read_value read_field
read_byte-eq-read_value bs count i = ground arith

-- In an array of at least `count` blocks, all 16-bit words, after an 8-bit value is written to a
-- byte below the count, that byte reads back and every other is as before.
pub read_byte-write_byte :
    (bs : List ℕ) (count i j v : ℕ)
    → IsBlocks bs
    → count ≤ length bs
    → i / 2 < count
    → v < 256
    → read_byte (write_byte (some bs) count i v).1 count j
      ≡ (if i == j then some v else read_byte (some bs) count j)
unfolding read_byte write_byte
read_byte-write_byte bs count i j v hb hc hi hv =
    let b = get_or bs (i / 2) 0 in
    ground (
      arith,
      block-lt bs (i / 2) hb,
      get_or-set_self bs (i / 2) (set_lo b v) 0,
      get_or-set_self bs (i / 2) (set_hi b v) 0,
      get_or-set_ne bs (i / 2) (j / 2) (set_lo b v) 0,
      get_or-set_ne bs (i / 2) (j / 2) (set_hi b v) 0,
    )

written_block-lt :
    (b i v : ℕ) → b < 65536 → v < 256 → (if i % 2 == 0 then set_lo b v else set_hi b v) < 65536
unfolding set_lo set_hi
written_block-lt b i v hb hv = ground arith

write_byte-set :
    (bs : List ℕ) (count i v : ℕ) {bs' : List ℕ}
    → (write_byte (some bs) count i v).1 ≡ some bs'
    → let b = get_or bs (i / 2) 0 in
      (bs' ≡ bs) ⊎ (bs' ≡ set bs (i / 2) (if i % 2 == 0 then set_lo b v else set_hi b v))
unfolding write_byte
write_byte-set bs count i v e = elim (Bool-cases (leb count (i / 2))) [
  | inl far ↦ inl (ground arith)
  | inr near ↦ inr (ground arith)
]

-- `write_byte` keeps the blocks 16-bit words, in the same number.
pub write_byte-IsBlocks :
    (bs : List ℕ) (count i v : ℕ) {bs' : List ℕ}
    → IsBlocks bs
    → v < 256
    → (write_byte (some bs) count i v).1 ≡ some bs'
    → IsBlocks bs' × (length bs' ≡ length bs)
write_byte-IsBlocks bs count i v hb hv e = elim (write_byte-set bs count i v e) [
  | inl same ↦ rw same (hb, refl)
  | inr changed ↦ rw changed (
    All-set (λ b. b < 65536) bs (i / 2) _
        (written_block-lt (get_or bs (i / 2) 0) i v (block-lt bs (i / 2) hb) hv) hb,
    length-set bs (i / 2) _,
  )
]

-- A write leaves an array of blocks.
pub write_byte-some :
    (bs : List ℕ) (count i v : ℕ) → (bs' : List ℕ) × ((write_byte (some bs) count i v).1 ≡ some bs')
unfolding write_byte
write_byte-some bs count i v = elim (Bool-cases (leb count (i / 2))) [
  | inl far ↦ (bs, rw far)
  | inr near ↦ (
    set bs (i / 2)
        (if i % 2 == 0 then set_lo (get_or bs (i / 2) 0) v else set_hi (get_or bs (i / 2) 0) v),
    rw near,
  )
]

-- The bytes `values` written one after the other from byte `i` on.
unfoldable pub write_bytes : ℕ → ℕ → List ℕ → Option (List ℕ) → Option (List ℕ)
write_bytes count i [] buf = buf
write_bytes count i (v ∷ vs) buf = write_bytes count (i + 1) vs (write_byte buf count i v).1

get_or_cons :
    (v : ℕ) (vs : List ℕ) (k : ℕ)
    → get_or (v ∷ vs) k 0 ≡ (if k == 0 then v else get_or vs (k - 1) 0)
get_or_cons v vs zero = refl
get_or_cons v vs (suc k) = ground arith

written_at :
    (v : ℕ) (vs : List ℕ) (i j : ℕ) (old new : Option ℕ)
    → new ≡ (if i == j then some v else old)
    → (if leb (i + 1) j && ltb j (i + 1 + length vs) then some (get_or vs (j - (i + 1)) 0) else new)
      ≡ (if leb i j && ltb j (i + suc (length vs)) then some (get_or (v ∷ vs) (j - i) 0) else old)
written_at v vs i j old new e = ground (arith, get_or_cons v vs (j - i))

-- Bytes written below the count read back in their order, and no other byte changes.
pub read_byte-write_bytes :
    (vs bs : List ℕ) (count i j : ℕ)
    → All (λ v. v < 256) vs
    → IsBlocks bs
    → count ≤ length bs
    → i + length vs ≤ count * 2
    → read_byte (write_bytes count i vs (some bs)) count j ≡ (
        if leb i j && ltb j (i + length vs)
        then some (get_or vs (j - i) 0)
        else read_byte (some bs) count j)
unfolding write_bytes
read_byte-write_bytes [] bs count i j hv hb hc fit = ground arith
read_byte-write_bytes (v ∷ vs) bs count i j hv hb hc fit =
    let (bs', w) = write_byte-some bs count i v in
    let (hb', len) = write_byte-IsBlocks bs count i v hb hv.0 w in
    let after = read_byte-write_byte bs count i j v hb hc (omega arith) hv.0 in
    rw w (
      read_byte-write_bytes vs bs' count (i + 1) j hv.1 hb' (omega arith) (omega arith)
      ∙ written_at v vs i j _ _ (rw w at after))
