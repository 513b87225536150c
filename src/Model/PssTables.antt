-- ===== src/Model/PssTables.antt =====
-- software/sim/sim/simulation/base/include/sim_pss_base.hpp: the tables, row for row. The entries' variables
-- are numbered in the order of their declarations; the `key` texts are not modelled.
use arachnopod.Base.{List, [], ◌∷◌}
use arachnopod.Isim.Registry.{ParamEntry, whole, halves, boolean, int8, float32}
use arachnopod.Model.Params.{param}

unfoldable pub pss_params : List ParamEntry
pss_params =
    param 0 1 boolean 0 (whole 0)
    ∷ param 1 1 boolean 1 (whole 1)
    ∷ param 2 1 boolean 2 (whole 1)
    ∷ param 3 1 boolean 3 (whole 1)
    ∷ param 4 1 boolean 4 (whole 1)
    ∷ param 5 1 boolean 5 (whole 0)
    ∷ param 6 8 int8 6 (whole 0)
    ∷ param 7 16 float32 7 (whole 80)
    ∷ param 8 16 float32 8 (whole 80)
    ∷ param 9 8 float32 9 (whole 12)
    ∷ param 10 8 float32 10 (whole 290)
    ∷ param 11 8 int8 11 (whole 5)
    ∷ param 12 8 float32 12 (whole 23)
    ∷ param 13 8 float32 13 (whole 3)
    ∷ param 14 8 float32 14 (whole 35)
    ∷ param 15 8 float32 15 (whole 6)
    ∷ param 16 8 float32 16 (halves 33)
    ∷ param 17 16 float32 17 (whole 0)
    ∷ param 18 16 float32 18 (whole 0)
    ∷ param 19 8 float32 19 (whole 0)
    ∷ param 20 8 float32 20 (whole 0)
    ∷ param 21 8 float32 21 (whole 0)
    ∷ param 22 8 int8 22 (whole 0)
    ∷ param 23 8 float32 23 (whole 0)
    ∷ param 24 8 float32 24 (whole 0)
    ∷ param 25 8 float32 25 (whole 0)
    ∷ param 26 8 float32 26 (whole 0)
    ∷ param 27 8 float32 27 (whole 0)
    ∷ param 28 8 float32 28 (whole 0)
    ∷ param 29 8 float32 29 (whole 0)
    ∷ param 30 8 float32 30 (whole 0)
    ∷ []

unfoldable pub pss_local_params : List ParamEntry
pss_local_params = []

unfoldable pub pss_isim_params : List ParamEntry
pss_isim_params =
    param 0 1 boolean 0 (whole 0)
    ∷ param 1 1 boolean 1 (whole 1)
    ∷ param 2 1 boolean 2 (whole 1)
    ∷ param 3 1 boolean 3 (whole 1)
    ∷ param 4 1 boolean 4 (whole 1)
    ∷ param 5 1 boolean 5 (whole 0)
    ∷ param 6 8 int8 6 (whole 0)
    ∷ param 7 16 float32 7 (whole 80)
    ∷ param 8 16 float32 8 (whole 80)
    ∷ param 9 8 float32 9 (whole 12)
    ∷ param 10 8 float32 10 (whole 290)
    ∷ param 11 8 int8 11 (whole 5)
    ∷ param 12 8 float32 12 (whole 23)
    ∷ param 13 8 float32 13 (whole 3)
    ∷ param 14 8 float32 14 (whole 35)
    ∷ param 15 8 float32 15 (whole 6)
    ∷ param 16 8 float32 16 (halves 33)
    ∷ param 17 16 float32 17 (whole 0)
    ∷ param 18 16 float32 18 (whole 0)
    ∷ param 19 8 float32 19 (whole 0)
    ∷ param 20 8 float32 20 (whole 0)
    ∷ param 21 8 float32 21 (whole 0)
    ∷ param 22 8 int8 22 (whole 0)
    ∷ param 23 8 float32 23 (whole 0)
    ∷ param 24 8 float32 24 (whole 0)
    ∷ param 25 8 float32 25 (whole 0)
    ∷ param 26 8 float32 26 (whole 0)
    ∷ param 27 8 float32 27 (whole 0)
    ∷ param 28 8 float32 28 (whole 0)
    ∷ param 29 8 float32 29 (whole 0)
    ∷ param 30 8 float32 30 (whole 0)
    ∷ []
