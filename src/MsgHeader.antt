-- ===== src/MsgHeader.antt =====
-- software/sim/sim/systems/sub/interface/i_msg_header.hpp and sub/src/i_msg_header.cpp: the 16-bit
-- frame header. A header is a number below 2 ^ 16; the bit-fields of `bits_t` lie from the lowest
-- digit on: parity 1, addr 5, flag 2, marker 3, nblocks 5.
mod Examples
pub mod Fields
pub mod Parity
pub mod Storage
use arachnopod.Base.{ℕ, ◌+◌, ◌*◌, ◌/◌, ◌%◌, Bool, true, false, Option, none, some}
use arachnopod.Base.{leb, ◌==◌, if◌then◌else◌, popcount}
use mathlib.Core.Option

abbrev pub k_header_bytes : ℕ
k_header_bytes = 2

-- `value_t`
pub record Value : Type 0 where
  pub parity : ℕ
  pub addr : ℕ
  pub flag : ℕ
  pub marker : ℕ
  pub nblocks : ℕ

-- `bytes_t`
pub record HeaderBytes : Type 0 where
  pub low : ℕ
  pub high : ℕ

-- What the two pointers `header_u16` and `header_u8` of an operation point at: one word, two bytes.
pub record HeaderStorage : Type 0 where
  pub header_u16 : Option ℕ
  pub header_u8 : Option HeaderBytes

-- Reads of the bit-fields of `view_t`.
abbrev pub parity_of : ℕ → ℕ
parity_of raw = raw % 2

abbrev pub addr_of : ℕ → ℕ
addr_of raw = raw / 2 % 32

abbrev pub flag_of : ℕ → ℕ
flag_of raw = raw / 64 % 4

abbrev pub marker_of : ℕ → ℕ
marker_of raw = raw / 256 % 8

abbrev pub nblocks_of : ℕ → ℕ
nblocks_of raw = raw / 2048 % 32

-- Writes of the bit-fields, which keep the low digits of the value.
abbrev pub set_parity : ℕ → ℕ → ℕ
set_parity raw v = raw / 2 * 2 + v % 2

abbrev pub set_addr : ℕ → ℕ → ℕ
set_addr raw v = raw / 64 * 64 + v % 32 * 2 + raw % 2

abbrev pub set_flag : ℕ → ℕ → ℕ
set_flag raw v = raw / 256 * 256 + v % 4 * 64 + raw % 64

abbrev pub set_marker : ℕ → ℕ → ℕ
set_marker raw v = raw / 2048 * 2048 + v % 8 * 256 + raw % 256

abbrev pub set_nblocks : ℕ → ℕ → ℕ
set_nblocks raw v = v % 32 * 2048 + raw % 2048

-- The digits counted are the 32 of `unsigned`.
unfoldable pub calc_parity : ℕ → ℕ
calc_parity raw = popcount 32 (set_parity raw 0) % 2

unfoldable pub make : ℕ → ℕ → ℕ → ℕ → ℕ
make addr flag marker nblocks =
    let header = set_nblocks (set_marker (set_flag (set_addr 0 addr) flag) marker) nblocks in
    set_parity header (calc_parity header)

unfoldable pub parity_ok : ℕ → Bool
parity_ok raw = parity_of raw == calc_parity raw

-- `none` is the `false` of the source, which leaves `out_header` alone.
unfoldable pub parse : ℕ → Option Value
parse raw =
    if parity_ok raw
    then some (record {
      parity = parity_of raw;
      addr = addr_of raw;
      flag = flag_of raw;
      marker = marker_of raw;
      nblocks = nblocks_of raw;
    })
    else none

abbrev pub byte_low : ℕ → ℕ
byte_low raw = raw % 256

abbrev pub byte_high : ℕ → ℕ
byte_high raw = raw / 256 % 256

abbrev pub bytes_of : ℕ → HeaderBytes
bytes_of raw = record { low = byte_low raw; high = byte_high raw }

abbrev pub load_bytes : Option HeaderBytes → ℕ
load_bytes none = 0
load_bytes (some b) = b.high * 256 + b.low

abbrev pub load_words : Option ℕ → Option HeaderBytes → ℕ
load_words none bytes = load_bytes bytes
load_words (some raw) bytes = raw

unfoldable pub load_view : HeaderStorage → ℕ
load_view s = load_words s.header_u16 s.header_u8

abbrev pub is_null : HeaderStorage → Bool
is_null s = elim s.header_u16 [
  | some raw ↦ false
  | none ↦ elim s.header_u8 [ some b ↦ false | none ↦ true ]
]

unfoldable pub read_raw : HeaderStorage → Option ℕ
read_raw s = if is_null s then none else some (load_view s)

unfoldable pub write_raw : HeaderStorage → ℕ → HeaderStorage
write_raw s raw = record {
  header_u16 = Option.map (λ old. raw) s.header_u16;
  header_u8 = Option.map (λ old. bytes_of raw) s.header_u8;
}

unfoldable pub read_byte : HeaderStorage → ℕ → Option ℕ
read_byte s i =
    let header = load_view s in
    if leb k_header_bytes i
    then none
    else some (if i == 0 then byte_low header else byte_high header)

unfoldable pub write_byte : HeaderStorage → ℕ → ℕ → Bool × HeaderStorage
write_byte s i value =
    let header = load_view s in
    if leb k_header_bytes i then (false, s) else (
      true,
      write_raw s (if i == 0 then header / 256 * 256 + value else value * 256 + byte_low header),
    )

unfoldable pub parse_storage : HeaderStorage → Option Value
parse_storage s = Option.bind (read_raw s) parse

unfoldable pub write_storage : HeaderStorage → Value → HeaderStorage
write_storage s v = write_raw s (make v.addr v.flag v.marker v.nblocks)
