-- ===== src/MsgHeader/Examples.antt =====
-- Concrete runs of i_msg_header.cpp.
use arachnopod.Base.{
  ◌-◌, ◌%◌, ◌<◌, true, none, some, ◌≡◌, refl, arith, bit, put_bit, popcount, if◌then◌else◌,
}
use arachnopod.MsgHeader.{
  HeaderStorage, Value, is_null, read_raw, write_raw, write_byte, parse, make, parity_ok,
  calc_parity, parity_of, byte_low, byte_high,
}
use arachnopod.MsgHeader.Parity.{parse-flip}
use arachnopod.MsgHeader.Fields.{parse-make, make-parse}
use arachnopod.MsgHeader.Storage.{IsCoherent, write_raw-IsCoherent, write_byte_pair}

abbrev command_header : Value
command_header = record { parity = 1; addr = 3; flag = 0; marker = 5; nblocks = 2 }

command_parses : parse 5383 ≡ some command_header
unfolding parse parity_ok calc_parity popcount
command_parses = refl

command_parity_ok : parity_ok 5383 ≡ true
unfolding parity_ok calc_parity popcount
command_parity_ok = refl

abbrev two_views : HeaderStorage
two_views = record { header_u16 = some 0; header_u8 = some (record { low = 0; high = 0 }) }

parse-flip_example : parse (put_bit 7 (1 - bit 7 5383) 5383) ≡ none
parse-flip_example = parse-flip 5383 7 (omega arith) command_parity_ok

parse-make_example :
    (parse (make 3 0 5 2)
      ≡ some (record {
        parity = parity_of (make 3 0 5 2);
        addr = 3 % 32;
        flag = 0 % 4;
        marker = 5 % 8;
        nblocks = 2 % 32;
      }))
    × (make 3 0 5 2 < 65536)
parse-make_example = parse-make 3 0 5 2

make-parse_example : make 3 0 5 2 ≡ 5383
make-parse_example = make-parse 5383 {v = command_header} (omega arith) command_parses

write_byte_pair_example :
    read_raw (write_byte (write_byte two_views 0 (byte_low 5383)).1 1 (byte_high 5383)).1
    ≡ some 5383
write_byte_pair_example = write_byte_pair two_views 5383 (omega arith) refl

write_raw-IsCoherent_example :
    IsCoherent (write_raw two_views 5383)
    × (read_raw (write_raw two_views 5383) ≡ (if is_null two_views then none else some 5383))
write_raw-IsCoherent_example = write_raw-IsCoherent two_views 5383 (omega arith)
