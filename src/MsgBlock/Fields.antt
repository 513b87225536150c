-- ===== src/MsgBlock/Fields.antt =====
-- The field switches of i_msg_block.cpp on one block.
use arachnopod.Base.{ℕ, zero, suc, ◌+◌, ◌*◌, ◌/◌, ◌%◌, ◌≤◌, ◌<◌, Bool, true, false}
use arachnopod.Base.{Option, none, some, ◌≡◌, ◌⊎◌, ap, arith}
use arachnopod.Base.{u8, u16, ◌==◌, if◌then◌else◌}
use arachnopod.Base.{bit, put_bit, bit-put_bit_self, bit-put_bit_ne, put_bit-lt, pos}
use arachnopod.MsgBlock.{layout_supported, read_discrete, read_field, write_field}

-- What a field of a width keeps of a raw value.
abbrev pub stored : ℕ → ℕ → ℕ
stored width raw =
    if width == 1 then (if raw == 0 then 0 else 1) else if width == 8 then u8 raw else u16 raw

bit_low : (k w w' : ℕ) → k < 8 → w % 256 ≡ w' % 256 → bit k w ≡ bit k w'
unfolding bit
bit_low (suc (suc (suc (suc (suc (suc (suc (suc k)))))))) w w' h e = absurd (omega arith)
bit_low _ w w' h e = omega arith

bit_high : (k w w' : ℕ) → 8 ≤ k → w / 256 ≡ w' / 256 → bit k w ≡ bit k w'
unfolding bit
bit_high (suc (suc (suc (suc (suc (suc (suc (suc k)))))))) w w' h e = ap (bit k) (omega arith)
bit_high _ w w' h e = absurd (omega arith)

put_bit_low : (k v w : ℕ) → v < 2 → k < 8 → put_bit k v w / 256 ≡ w / 256
unfolding put_bit
put_bit_low (suc (suc (suc (suc (suc (suc (suc (suc k)))))))) v w hv h = absurd (omega arith)
put_bit_low _ v w hv h = omega arith

put_bit_high : (k v w : ℕ) → 8 ≤ k → put_bit k v w % 256 ≡ w % 256
unfolding put_bit
put_bit_high (suc (suc (suc (suc (suc (suc (suc (suc k)))))))) v w h = omega arith
put_bit_high _ v w h = absurd (omega arith)

abbrev pub is_some {ℓ} : {A : Type ℓ} → Option A → Bool
is_some none = false
is_some (some a) = true

pub read_field-layout : (b o w : ℕ) → is_some (read_field b o w) ≡ layout_supported w (pos o)
unfolding read_field layout_supported
read_field-layout b o w = ground arith

pub write_field-layout : (b o w v : ℕ) → is_some (write_field b o w v) ≡ layout_supported w (pos o)
unfolding write_field layout_supported
write_field-layout b o w v = ground arith

-- A supported field reads back what was written to it.
pub read_field-write_field :
    (b o w v : ℕ) {b' : ℕ}
    → b < 65536
    → write_field b o w v ≡ some b'
    → read_field b' o w ≡ some (stored w v)
unfolding read_field write_field
read_field-write_field b o w v hb e = ground (arith, bit-put_bit_self o 0 b, bit-put_bit_self o 1 b)

-- The written block is a 16-bit word again.
pub write_field-lt : (b o w v : ℕ) {b' : ℕ} → b < 65536 → write_field b o w v ≡ some b' → b' < 65536
unfolding write_field
write_field-lt b o w v hb e = ground (arith, put_bit-lt 16 o 0 b, put_bit-lt 16 o 1 b)

-- Writing one field does not change a field whose bits lie apart.
pub read_field-write_field_apart :
    (b o w v o' w' : ℕ) {b' : ℕ}
    → b < 65536
    → (o + w ≤ o') ⊎ (o' + w' ≤ o)
    → write_field b o w v ≡ some b'
    → read_field b' o' w' ≡ read_field b o' w'
unfolding read_field write_field
read_field-write_field_apart b o w v o' w' hb apart e = ground (
  arith,
  bit-put_bit_ne o o' 0 b,
  bit-put_bit_ne o o' 1 b,
  put_bit_low o 0 b,
  put_bit_low o 1 b,
  put_bit_high o 0 b,
  put_bit_high o 1 b,
  bit_low o' (b / 256 * 256 + v % 256) b,
  bit_low o' (v % 256 * 256 + b % 256) b,
  bit_high o' (b / 256 * 256 + v % 256) b,
  bit_high o' (v % 256 * 256 + b % 256) b,
)

bit-zero : (k : ℕ) → bit k 0 ≡ 0
unfolding bit
bit-zero zero = omega arith
bit-zero (suc k) = let half : 0 / 2 ≡ 0 = omega arith in rw half (bit-zero k)

-- A field of an empty block is empty.
pub read_field-zero : (o w : ℕ) → (read_field 0 o w ≡ none) ⊎ (read_field 0 o w ≡ some 0)
unfolding read_field read_discrete
read_field-zero o w = ground (arith, bit-zero o)
