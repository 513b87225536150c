-- ===== src/Ipar/Examples.antt =====
-- Concrete fields, parameters and commands of i_par.cpp.
use arachnopod.Base.{ℕ, true, some, List, ◌≡◌, refl, arith, replicate, get_or, pos}
use arachnopod.Tables.Config.{sys_pss, sys_cs}
use arachnopod.Tables.Entry.{type_width_bits}
use arachnopod.Base.{◌≤ℤ◌, ℤ}
use arachnopod.Tables.Commands.{base_comm_tab}
use arachnopod.Tables.Params.{base_param_tab}
use arachnopod.Ipar.Codes.{
  decode_raw, wire_range, encode_to_bits, clamp_wire_value, InRange, sixteen, eight, encode-decode,
  Holds, decode-clamp,
}
use arachnopod.Ipar.Context.{cs, device, ok, ParContext, param_entry, comm_entry}
use arachnopod.Ipar.Access.{imsgget, imsgset}
use arachnopod.Ipar.Transport.{PassesParam, PassesCommand, param_passes, command_passes}
use arachnopod.Ipar.WholeFloats.{whole_floats, whole_floats-IsExact}

encode-decode_example :
    (encode_to_bits (decode_raw 65535 16 true) 16 ≡ 65535)
    × InRange 16 true (decode_raw 65535 16 true)
encode-decode_example = encode-decode 16 65535 true sixteen (omega arith)

decode-clamp_example :
    let r = decode_raw (encode_to_bits (clamp_wire_value 8 true (pos 300)) 8) 8 true in
    Holds 8 true r
    × ((y : ℤ) → Holds 8 true y → y ≤ℤ pos 300 → y ≤ℤ r)
    × ((y : ℤ) → Holds 8 true y → pos 300 ≤ℤ y → r ≤ℤ y)
decode-clamp_example = decode-clamp 8 true (pos 300) eight

-- PSS and CS, each with the blocks of its messages.
abbrev pss_device : ParContext
pss_device = record {
  role = device;
  system_id = sys_pss;
  msg_prm = some (replicate 15 0);
  msg_prm_blocks = 15;
  msg_cmd = some (replicate 8 0);
  msg_cmd_blocks = 8;
}

abbrev cs_host : ParContext
cs_host = record {
  role = cs;
  system_id = sys_cs;
  msg_prm = some (replicate 26 0);
  msg_prm_blocks = 26;
  msg_cmd = some (replicate 16 0);
  msg_cmd_blocks = 16;
}

-- The clock of PSS, an 8 bit parameter, and the switch of its first channel.
clock_passes : PassesParam pss_device cs_host 6 (replicate 15 0) (pos 7)
unfolding base_param_tab type_width_bits wire_range
clock_passes = record {
  from_device = refl;
  to_cs = refl;
  known = omega arith;
  own = refl;
  fits = record { plain = refl; fits = (omega arith, omega arith) };
  buffer = refl;
  words = ground arith;
  counted = ground arith;
  room = omega arith;
  host_room = omega arith;
}

param_passes_example :
    (bs' : List ℕ) × (imsgset whole_floats pss_device 6 (pos 7)
      ≡ (ok, record pss_device { msg_prm = some bs' }))
    × ((cbs : List ℕ)
        → cs_host.msg_prm ≡ some cbs
        → get_or cbs (param_entry 6).msg_cs_block_n 0 ≡ get_or bs' (param_entry 6).msg_block_n 0
        → imsgget whole_floats cs_host 6 ≡ (ok, pos 7))
param_passes_example =
    param_passes whole_floats whole_floats-IsExact pss_device cs_host 6 (replicate 15 0) (pos 7)
      clock_passes

switch_passes : PassesCommand cs_host pss_device 55 (replicate 16 0) (pos 1)
unfolding base_comm_tab type_width_bits wire_range
switch_passes = record {
  from_cs = refl;
  to_device = refl;
  above = omega arith;
  known = omega arith;
  own = refl;
  fits = record { plain = refl; fits = (omega arith, omega arith) };
  buffer = refl;
  words = ground arith;
  counted = ground arith;
  room = omega arith;
  device_room = omega arith;
}

command_passes_example :
    (bs' : List ℕ) × (imsgset whole_floats cs_host 55 (pos 1)
      ≡ (ok, record cs_host { msg_cmd = some bs' }))
    × ((dbs : List ℕ)
        → pss_device.msg_cmd ≡ some dbs
        → get_or dbs (comm_entry 55).msg_block_n 0 ≡ get_or bs' (comm_entry 55).msg_cs_block_n 0
        → imsgget whole_floats pss_device 55 ≡ (ok, pos 1))
command_passes_example =
    command_passes whole_floats whole_floats-IsExact cs_host pss_device 55 (replicate 16 0) (pos 1)
      switch_passes
