-- ===== src/MsgHeader/Storage.antt =====
-- The storage of a header in i_msg_header.cpp: the word and the byte view.
use arachnopod.Base.{ℕ, ◌*◌, ◌+◌, ◌%◌, ◌<◌, false, none, some}
use arachnopod.Base.{◌≡◌, arith, if◌then◌else◌}
use arachnopod.MsgHeader.{
  HeaderBytes, HeaderStorage, is_null, load_view, read_raw, write_raw, read_byte, write_byte,
  parse_storage, write_storage, Value, make, byte_low, byte_high, parity_of,
}
use arachnopod.MsgHeader.Fields.{parse-make}
use mathlib.Core.Option

-- The two pointers agree, as they do where both point at one `msg_storage_t` union.
pub record IsCoherent (s : HeaderStorage) : Type 0 where
  pub word_lt : (raw : ℕ) → s.header_u16 ≡ some raw → raw < 65536
  pub low_lt : (b : HeaderBytes) → s.header_u8 ≡ some b → b.low < 256
  pub high_lt : (b : HeaderBytes) → s.header_u8 ≡ some b → b.high < 256
  pub agree :
      (raw : ℕ) (b : HeaderBytes)
      → s.header_u16 ≡ some raw
      → s.header_u8 ≡ some b
      → raw ≡ b.high * 256 + b.low

pub read_raw-write_raw :
    (s : HeaderStorage) (raw : ℕ)
    → raw < 65536
    → read_raw (write_raw s raw) ≡ (if is_null s then none else some raw)
unfolding read_raw write_raw load_view
read_raw-write_raw s raw h = ground arith

-- The bytes of a header that was written as a word.
pub read_byte-write_raw :
    (s : HeaderStorage) (raw : ℕ)
    → raw < 65536
    → is_null s ≡ false
    → (read_byte (write_raw s raw) 0 ≡ some (byte_low raw))
      × (read_byte (write_raw s raw) 1 ≡ some (byte_high raw))
unfolding read_byte write_raw load_view
read_byte-write_raw s raw h n = ground arith

-- `write_raw` of a 16-bit word keeps the two views of a header in agreement, and what it wrote is
-- what `read_raw` then reads, unless both pointers are null.
pub write_raw-IsCoherent :
    (s : HeaderStorage) (raw : ℕ)
    → raw < 65536
    → IsCoherent (write_raw s raw)
      × (read_raw (write_raw s raw) ≡ (if is_null s then none else some raw))
unfolding write_raw
write_raw-IsCoherent s raw h = (
  record {
    word_lt = λ r e. ground arith;
    low_lt = λ b e. ground arith;
    high_lt = λ b e. ground arith;
    agree = λ r b e f. ground arith;
  },
  read_raw-write_raw s raw h,
)

-- A header taken over byte by byte, the low byte first, is the header that was sent: writing the
-- two bytes of a 16-bit word leaves a storage from which that word is read.
pub write_byte_pair :
    (s : HeaderStorage) (raw : ℕ)
    → raw < 65536
    → is_null s ≡ false
    → read_raw (write_byte (write_byte s 0 (byte_low raw)).1 1 (byte_high raw)).1 ≡ some raw
unfolding write_byte read_raw write_raw load_view
write_byte_pair s raw h n = ground arith

-- What `write_storage` wrote, `parse_storage` reads back, to the low digits of each field.
pub parse_storage-write_storage :
    (s : HeaderStorage) (v : Value)
    → is_null s ≡ false
    → parse_storage (write_storage s v)
      ≡ some (record {
        parity = parity_of (make v.addr v.flag v.marker v.nblocks);
        addr = v.addr % 32;
        flag = v.flag % 4;
        marker = v.marker % 8;
        nblocks = v.nblocks % 32;
      })
unfolding parse_storage write_storage Option.bind
parse_storage-write_storage s v n =
    let raw = make v.addr v.flag v.marker v.nblocks in
    let built = parse-make v.addr v.flag v.marker v.nblocks in
    rw (read_raw-write_raw s raw built.1, n) built.0
