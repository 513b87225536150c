-- ===== src/Tables/Commands.antt =====
-- software/sim/sim/systems/base/command_tab.hpp: the command table, row for row.
-- The calibration coefficients of the source are doubles; all of them are whole numbers. The
-- `key` texts are not modelled.
use arachnopod.Base.{List, [], ◌∷◌}
use arachnopod.Tables.Entry.{Entry, entry}
use arachnopod.Tables.Config.{
  sys_pss, sys_tcs, sys_tms, sys_mns, sys_ls, type_d, type_a, type_ap, type_sign, type_unsign,
  rtype_bool, rtype_int8, rtype_int16, rtype_float32, alg_an, alg_ac, alg_abc,
}

unfoldable pub base_comm_tab : List Entry
base_comm_tab =
    entry sys_pss type_d rtype_bool type_unsign 0 1 0 0 0 0 0 0 alg_an
    ∷ entry sys_pss type_d rtype_bool type_unsign 0 1 0 1 1 0 1 0 alg_an
    ∷ entry sys_pss type_d rtype_bool type_unsign 0 1 0 2 2 0 2 0 alg_an
    ∷ entry sys_pss type_d rtype_bool type_unsign 0 1 0 3 3 0 3 0 alg_an
    ∷ entry sys_pss type_d rtype_bool type_unsign 0 1 0 4 4 0 4 0 alg_an
    ∷ entry sys_pss type_d rtype_bool type_unsign 0 1 0 5 5 0 5 0 alg_an
    ∷ entry sys_pss type_d rtype_bool type_unsign 0 1 0 6 6 0 6 0 alg_an
    ∷ entry sys_pss type_d rtype_bool type_unsign 0 1 0 7 7 0 7 0 alg_an
    ∷ entry sys_pss type_d rtype_bool type_unsign 0 1 0 8 8 0 8 0 alg_an
    ∷ entry sys_pss type_d rtype_bool type_unsign 0 1 0 9 9 0 9 0 alg_an
    ∷ entry sys_pss type_d rtype_bool type_unsign 0 1 0 10 10 0 10 0 alg_an
    ∷ entry sys_pss type_d rtype_bool type_unsign 0 1 0 11 11 0 11 0 alg_an
    ∷ entry sys_pss type_d rtype_bool type_unsign 0 1 0 12 12 0 12 0 alg_an
    ∷ entry sys_pss type_ap rtype_int16 type_sign 0 1 0 16 0 1 16 1 alg_an
    ∷ entry sys_pss type_ap rtype_int16 type_sign 0 1 0 32 0 2 32 2 alg_an
    ∷ entry sys_pss type_a rtype_float32 type_unsign 0 1 0 48 0 3 48 3 alg_abc
    ∷ entry sys_pss type_a rtype_float32 type_unsign 0 1 0 56 8 3 56 3 alg_abc
    ∷ entry sys_pss type_a rtype_int8 type_unsign 0 1 0 64 0 4 64 4 alg_an
    ∷ entry sys_pss type_a rtype_float32 type_unsign 0 1 0 72 8 4 72 4 alg_abc
    ∷ entry sys_pss type_a rtype_float32 type_unsign 0 1 0 80 0 5 80 5 alg_abc
    ∷ entry sys_pss type_a rtype_float32 type_unsign 0 1 0 88 8 5 88 5 alg_abc
    ∷ entry sys_pss type_a rtype_float32 type_unsign 0 1 0 96 0 6 96 6 alg_abc
    ∷ entry sys_pss type_a rtype_float32 type_unsign 0 1 0 104 8 6 104 6 alg_abc
    ∷ entry sys_pss type_a rtype_int8 type_unsign 0 1 0 112 0 7 112 7 alg_an
    ∷ entry sys_tcs type_d rtype_bool type_unsign 0 1 0 0 0 0 128 8 alg_an
    ∷ entry sys_tcs type_d rtype_bool type_unsign 0 1 0 1 1 0 129 8 alg_an
    ∷ entry sys_tcs type_d rtype_bool type_unsign 0 1 0 2 2 0 130 8 alg_an
    ∷ entry sys_tcs type_d rtype_bool type_unsign 0 1 0 3 3 0 131 8 alg_an
    ∷ entry sys_tcs type_d rtype_bool type_unsign 0 1 0 4 4 0 132 8 alg_an
    ∷ entry sys_tcs type_d rtype_bool type_unsign 0 1 0 5 5 0 133 8 alg_an
    ∷ entry sys_tcs type_d rtype_bool type_unsign 0 1 0 6 6 0 134 8 alg_an
    ∷ entry sys_tcs type_d rtype_bool type_unsign 0 1 0 7 7 0 135 8 alg_an
    ∷ entry sys_tcs type_d rtype_bool type_unsign 0 1 0 8 8 0 136 8 alg_an
    ∷ entry sys_tcs type_d rtype_bool type_unsign 0 1 0 9 9 0 137 8 alg_an
    ∷ entry sys_tcs type_d rtype_bool type_unsign 0 1 0 10 10 0 138 8 alg_an
    ∷ entry sys_tcs type_ap rtype_int16 type_unsign 0 1 0 16 0 1 144 9 alg_an
    ∷ entry sys_tcs type_a rtype_int8 type_unsign 0 1 0 32 0 2 160 10 alg_an
    ∷ entry sys_tms type_d rtype_bool type_unsign 0 1 0 0 0 0 176 11 alg_an
    ∷ entry sys_tms type_d rtype_bool type_unsign 0 1 0 1 1 0 177 11 alg_an
    ∷ entry sys_tms type_d rtype_bool type_unsign 0 1 0 2 2 0 178 11 alg_an
    ∷ entry sys_tms type_a rtype_int8 type_unsign 0 1 0 8 8 0 184 11 alg_an
    ∷ entry sys_tms type_a rtype_int8 type_unsign 0 1 10 16 0 1 192 12 alg_ac
    ∷ entry sys_tms type_a rtype_int8 type_unsign 0 1 10 24 8 1 200 12 alg_ac
    ∷ entry sys_tms type_a rtype_int8 type_unsign 0 1 10 32 0 2 208 13 alg_ac
    ∷ entry sys_tms type_a rtype_int8 type_unsign 0 1 10 40 8 2 216 13 alg_ac
    ∷ entry sys_mns type_d rtype_bool type_unsign 0 1 0 0 0 0 224 14 alg_an
    ∷ entry sys_mns type_d rtype_bool type_unsign 0 1 0 1 1 0 225 14 alg_an
    ∷ entry sys_mns type_d rtype_bool type_unsign 0 1 0 2 2 0 226 14 alg_an
    ∷ entry sys_mns type_a rtype_int8 type_unsign 0 1 0 8 8 0 232 14 alg_an
    ∷ entry sys_ls type_d rtype_bool type_unsign 0 1 0 0 0 0 240 15 alg_an
    ∷ entry sys_ls type_d rtype_bool type_unsign 0 1 0 1 1 0 241 15 alg_an
    ∷ entry sys_ls type_d rtype_bool type_unsign 0 1 0 2 2 0 242 15 alg_an
    ∷ entry sys_ls type_a rtype_int8 type_unsign 0 1 0 8 8 0 248 15 alg_an
    ∷ []
