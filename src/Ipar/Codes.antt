-- ===== src/Ipar/Codes.antt =====
-- The codes of i_par.cpp: the raw digits of a field and the integer that they stand for.
use arachnopod.Base.{ℕ, ◌-◌, ◌%◌, ◌^◌, ◌<◌, Bool, true, false, ◌≡◌, arith, ltb}
use arachnopod.Base.{if◌then◌else◌, ℤ, pos, negsuc, pos_part, neg_part, ◌≤◌, ◌≤ℤ◌, clamp_ℤ, to_u32}

-- `decode_raw`: `raw & full_mask`, with the sign digit extended when `is_signed`. The fill
-- `clipped | ~full_mask`, read as `int32_t`, is `clipped - 2 ^ width_bits`.
unfoldable pub decode_raw : ℕ → ℕ → Bool → ℤ
decode_raw raw width_bits is_signed =
    let clipped = raw % 2 ^ width_bits in
    if is_signed
    then (if ltb clipped (2 ^ (width_bits - 1))
        then pos clipped
        else negsuc (2 ^ width_bits - 1 - clipped))
    else pos clipped

-- `wire_range`: the least and the greatest value.
unfoldable pub wire_range : ℕ → Bool → ℤ × ℤ
wire_range width_bits true = (negsuc (2 ^ (width_bits - 1) - 1), pos (2 ^ (width_bits - 1) - 1))
wire_range width_bits false = (pos 0, pos (2 ^ width_bits - 1))

unfoldable pub clamp_wire_value : ℕ → Bool → ℤ → ℤ
unfolding wire_range
clamp_wire_value width_bits is_signed value =
    clamp_ℤ value (wire_range width_bits is_signed).0 (wire_range width_bits is_signed).1

-- Both branches of the source mask alike.
unfoldable pub encode_to_bits : ℤ → ℕ → ℕ
encode_to_bits value width_bits = to_u32 value % 2 ^ width_bits

-- The widths that a field can have.
pub data IsWidth : ℕ → Type 0 where
  one : IsWidth 1
  eight : IsWidth 8
  sixteen : IsWidth 16

abbrev pub InRange : ℕ → Bool → ℤ → Type 0
InRange w sg z = ((wire_range w sg).0 ≤ℤ z) × (z ≤ℤ (wire_range w sg).1)

-- A word of a field's width decodes to an integer in the range of the field's sign, which encodes
-- to that word again.
pub encode-decode :
    (w raw : ℕ) (sg : Bool)
    → IsWidth w
    → raw < 2 ^ w
    → (encode_to_bits (decode_raw raw w sg) w ≡ raw) × InRange w sg (decode_raw raw w sg)
unfolding encode_to_bits decode_raw wire_range
encode-decode _ raw true one h = ground arith
encode-decode _ raw true eight h = ground arith
encode-decode _ raw true sixteen h = ground arith
encode-decode _ raw false one h = ground arith
encode-decode _ raw false eight h = ground arith
encode-decode _ raw false sixteen h = ground arith

-- An integer in the range of a field encodes to a word of the field's width, which decodes to it.
pub decode-encode :
    (w : ℕ) (sg : Bool) (z : ℤ)
    → IsWidth w
    → InRange w sg z
    → (decode_raw (encode_to_bits z w) w sg ≡ z) × (encode_to_bits z w < 2 ^ w)
unfolding encode_to_bits decode_raw wire_range
decode-encode _ true z one h = ground arith
decode-encode _ true z eight h = ground arith
decode-encode _ true z sixteen h = ground arith
decode-encode _ false z one h = ground arith
decode-encode _ false z eight h = ground arith
decode-encode _ false z sixteen h = ground arith

-- Clamping puts every integer into the range of a field of 1, 8 or 16 bits, and leaves what is in it.
pub clamp_wire_value_lem :
    (w : ℕ) (sg : Bool) (z : ℤ)
    → IsWidth w
    → InRange w sg (clamp_wire_value w sg z) × (InRange w sg z → clamp_wire_value w sg z ≡ z)
unfolding clamp_wire_value wire_range
clamp_wire_value_lem _ true z one = ground arith
clamp_wire_value_lem _ true z eight = ground arith
clamp_wire_value_lem _ true z sixteen = ground arith
clamp_wire_value_lem _ false z one = ground arith
clamp_wire_value_lem _ false z eight = ground arith
clamp_wire_value_lem _ false z sixteen = ground arith

-- The integers that a field of `w` bits can hold, without or with a sign: two's complement.
abbrev pub Holds : ℕ → Bool → ℤ → Type 0
Holds w false z = (neg_part z ≡ 0) × (pos_part z < 2 ^ w)
Holds w true z = (neg_part z ≤ 2 ^ (w - 1)) × (pos_part z < 2 ^ (w - 1))

-- Any integer, clamped, encoded into a field of 1, 8 or 16 bits and decoded again, gives the
-- nearest integer that the field can hold: one that it can hold, not below any such integer that is
-- at most the given one, and not above any that is at least the given one.
pub decode-clamp :
    (w : ℕ) (sg : Bool) (z : ℤ)
    → IsWidth w
    → let r = decode_raw (encode_to_bits (clamp_wire_value w sg z) w) w sg in
      Holds w sg r
      × ((y : ℤ) → Holds w sg y → y ≤ℤ z → y ≤ℤ r)
      × ((y : ℤ) → Holds w sg y → z ≤ℤ y → r ≤ℤ y)
unfolding clamp_wire_value wire_range decode_raw encode_to_bits
decode-clamp _ true z one = (ground arith, λ y h l. ground arith, λ y h l. ground arith)
decode-clamp _ true z eight = (ground arith, λ y h l. ground arith, λ y h l. ground arith)
decode-clamp _ true z sixteen = (ground arith, λ y h l. ground arith, λ y h l. ground arith)
decode-clamp _ false z one = (ground arith, λ y h l. ground arith, λ y h l. ground arith)
decode-clamp _ false z eight = (ground arith, λ y h l. ground arith, λ y h l. ground arith)
decode-clamp _ false z sixteen = (ground arith, λ y h l. ground arith, λ y h l. ground arith)
