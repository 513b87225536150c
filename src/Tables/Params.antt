-- ===== src/Tables/Params.antt =====
-- software/sim/sim/systems/base/param_tab.hpp: the parameter table, row for row.
-- The calibration coefficients of the source are doubles; all of them are whole numbers. The
-- `key` texts are not modelled.
use arachnopod.Base.{List, [], ◌∷◌}
use arachnopod.Tables.Entry.{Entry, entry}
use arachnopod.Tables.Config.{
  sys_pss, sys_tcs, sys_tms, sys_mns, sys_ls, type_d, type_a, type_ap, type_sign, type_unsign,
  rtype_bool, rtype_int8, rtype_int16, rtype_float32, alg_an, alg_ac, alg_abc,
}

unfoldable pub base_param_tab : List Entry
base_param_tab =
    entry sys_pss type_d rtype_bool type_unsign 0 1 0 0 0 0 0 0 alg_an
    ∷ entry sys_pss type_d rtype_bool type_unsign 0 1 0 1 1 0 1 0 alg_an
    ∷ entry sys_pss type_d rtype_bool type_unsign 0 1 0 2 2 0 2 0 alg_an
    ∷ entry sys_pss type_d rtype_bool type_unsign 0 1 0 3 3 0 3 0 alg_an
    ∷ entry sys_pss type_d rtype_bool type_unsign 0 1 0 4 4 0 4 0 alg_an
    ∷ entry sys_pss type_d rtype_bool type_unsign 0 1 0 5 5 0 5 0 alg_an
    ∷ entry sys_pss type_a rtype_int8 type_unsign 0 1 0 8 8 0 8 0 alg_an
    ∷ entry sys_pss type_ap rtype_float32 type_sign 0 1 0 16 0 1 16 1 alg_abc
    ∷ entry sys_pss type_ap rtype_float32 type_sign 0 1 0 32 0 2 32 2 alg_abc
    ∷ entry sys_pss type_a rtype_float32 type_unsign 0 1 0 48 0 3 48 3 alg_abc
    ∷ entry sys_pss type_a rtype_float32 type_unsign 0 1 0 56 8 3 56 3 alg_abc
    ∷ entry sys_pss type_a rtype_int8 type_unsign 0 1 0 64 0 4 64 4 alg_an
    ∷ entry sys_pss type_a rtype_float32 type_unsign 0 1 0 72 8 4 72 4 alg_abc
    ∷ entry sys_pss type_a rtype_float32 type_unsign 0 1 0 80 0 5 80 5 alg_abc
    ∷ entry sys_pss type_a rtype_float32 type_unsign 0 1 0 88 8 5 88 5 alg_abc
    ∷ entry sys_pss type_a rtype_float32 type_unsign 0 1 0 96 0 6 96 6 alg_abc
    ∷ entry sys_pss type_a rtype_float32 type_unsign 0 1 0 104 8 6 104 6 alg_abc
    ∷ entry sys_pss type_ap rtype_float32 type_sign 0 1 0 112 0 7 112 7 alg_abc
    ∷ entry sys_pss type_ap rtype_float32 type_sign 0 1 0 128 0 8 128 8 alg_abc
    ∷ entry sys_pss type_a rtype_float32 type_unsign 0 1 0 144 0 9 144 9 alg_abc
    ∷ entry sys_pss type_a rtype_float32 type_unsign 0 1 0 152 8 9 152 9 alg_abc
    ∷ entry sys_pss type_a rtype_float32 type_unsign 0 1 0 160 0 10 160 10 alg_abc
    ∷ entry sys_pss type_a rtype_int8 type_unsign 0 1 0 168 8 10 168 10 alg_an
    ∷ entry sys_pss type_a rtype_float32 type_unsign 0 1 0 176 0 11 176 11 alg_abc
    ∷ entry sys_pss type_a rtype_float32 type_unsign 0 1 0 184 8 11 184 11 alg_abc
    ∷ entry sys_pss type_a rtype_float32 type_unsign 0 1 0 192 0 12 192 12 alg_abc
    ∷ entry sys_pss type_a rtype_float32 type_unsign 0 1 0 200 8 12 200 12 alg_abc
    ∷ entry sys_pss type_a rtype_float32 type_unsign 0 1 0 208 0 13 208 13 alg_abc
    ∷ entry sys_pss type_a rtype_float32 type_unsign 0 1 0 216 8 13 216 13 alg_abc
    ∷ entry sys_pss type_a rtype_float32 type_unsign 0 1 0 224 0 14 224 14 alg_abc
    ∷ entry sys_pss type_a rtype_float32 type_unsign 0 1 0 232 8 14 232 14 alg_abc
    ∷ entry sys_tcs type_d rtype_bool type_unsign 0 1 0 0 0 0 240 15 alg_an
    ∷ entry sys_tcs type_d rtype_bool type_unsign 0 1 0 1 1 0 241 15 alg_an
    ∷ entry sys_tcs type_d rtype_bool type_unsign 0 1 0 2 2 0 242 15 alg_an
    ∷ entry sys_tcs type_d rtype_bool type_unsign 0 1 0 3 3 0 243 15 alg_an
    ∷ entry sys_tcs type_d rtype_bool type_unsign 0 1 0 4 4 0 244 15 alg_an
    ∷ entry sys_tcs type_a rtype_int8 type_unsign 0 1 0 8 8 0 248 15 alg_an
    ∷ entry sys_tcs type_ap rtype_int16 type_unsign 0 1 0 16 0 1 256 16 alg_an
    ∷ entry sys_tcs type_ap rtype_float32 type_sign 0 1 0 32 0 2 272 17 alg_abc
    ∷ entry sys_tms type_d rtype_bool type_unsign 0 1 0 0 0 0 288 18 alg_an
    ∷ entry sys_tms type_a rtype_int8 type_unsign 0 1 0 8 8 0 296 18 alg_an
    ∷ entry sys_tms type_a rtype_int8 type_unsign 0 1 0 16 0 1 304 19 alg_ac
    ∷ entry sys_tms type_a rtype_int8 type_unsign 0 1 0 24 8 1 312 19 alg_ac
    ∷ entry sys_tms type_a rtype_int8 type_unsign 0 1 0 32 0 2 320 20 alg_ac
    ∷ entry sys_tms type_a rtype_int8 type_unsign 0 1 0 40 8 2 328 20 alg_ac
    ∷ entry sys_tms type_ap rtype_float32 type_sign 0 1 0 48 0 3 336 21 alg_abc
    ∷ entry sys_mns type_d rtype_bool type_unsign 0 1 0 0 0 0 352 22 alg_an
    ∷ entry sys_mns type_a rtype_int8 type_unsign 0 1 0 8 8 0 360 22 alg_an
    ∷ entry sys_mns type_ap rtype_float32 type_sign 0 1 0 16 0 1 368 23 alg_abc
    ∷ entry sys_ls type_d rtype_bool type_unsign 0 1 0 0 0 0 384 24 alg_an
    ∷ entry sys_ls type_a rtype_int8 type_unsign 0 1 0 8 8 0 392 24 alg_an
    ∷ entry sys_ls type_ap rtype_float32 type_sign 0 1 0 16 0 1 400 25 alg_abc
    ∷ []
