-- ===== src/Model/SmallTables.antt =====
-- The tables of sim_cs_base.hpp, sim_ls_base.hpp, sim_tcs_base.hpp and sim_tms_base.hpp in
-- software/sim/sim/simulation/base/include, row for row. The entries' variables
-- are numbered in the order of their declarations; the `key` texts are not modelled.
use arachnopod.Base.{List, [], ◌∷◌}
use arachnopod.Isim.Registry.{ParamEntry, whole, boolean, int8, int16, float32}
use arachnopod.Model.Params.{param}

unfoldable pub cs_params : List ParamEntry
cs_params = []

unfoldable pub cs_local_params : List ParamEntry
cs_local_params =
    param 32768 1 boolean 0 (whole 1)
    ∷ param 32769 8 int8 1 (whole 0)
    ∷ param 32770 16 float32 2 (whole 0)
    ∷ []

unfoldable pub cs_isim_params : List ParamEntry
cs_isim_params =
    param 32768 1 boolean 0 (whole 1)
    ∷ param 32769 8 int8 1 (whole 0)
    ∷ param 32770 16 float32 2 (whole 0)
    ∷ []

unfoldable pub ls_params : List ParamEntry
ls_params =
    param 49 1 boolean 0 (whole 0)
    ∷ param 50 8 int8 1 (whole 0)
    ∷ param 51 16 float32 2 (whole 0)
    ∷ []

unfoldable pub ls_local_params : List ParamEntry
ls_local_params = []

unfoldable pub ls_isim_params : List ParamEntry
ls_isim_params =
    param 49 1 boolean 0 (whole 0)
    ∷ param 50 8 int8 1 (whole 0)
    ∷ param 51 16 float32 2 (whole 0)
    ∷ []

unfoldable pub tcs_params : List ParamEntry
tcs_params =
    param 31 1 boolean 0 (whole 0)
    ∷ param 32 1 boolean 1 (whole 0)
    ∷ param 33 1 boolean 2 (whole 0)
    ∷ param 34 1 boolean 3 (whole 0)
    ∷ param 35 1 boolean 4 (whole 0)
    ∷ param 36 8 int8 5 (whole 0)
    ∷ param 37 16 int16 6 (whole 0)
    ∷ param 38 16 float32 7 (whole 0)
    ∷ []

unfoldable pub tcs_local_params : List ParamEntry
tcs_local_params = []

unfoldable pub tcs_isim_params : List ParamEntry
tcs_isim_params =
    param 31 1 boolean 0 (whole 0)
    ∷ param 32 1 boolean 1 (whole 0)
    ∷ param 33 1 boolean 2 (whole 0)
    ∷ param 34 1 boolean 3 (whole 0)
    ∷ param 35 1 boolean 4 (whole 0)
    ∷ param 36 8 int8 5 (whole 0)
    ∷ param 37 16 int16 6 (whole 0)
    ∷ param 38 16 float32 7 (whole 0)
    ∷ []

unfoldable pub tms_params : List ParamEntry
tms_params =
    param 39 1 boolean 0 (whole 0)
    ∷ param 40 8 int8 1 (whole 0)
    ∷ param 41 8 int8 2 (whole 0)
    ∷ param 42 8 int8 3 (whole 0)
    ∷ param 43 8 int8 4 (whole 0)
    ∷ param 44 8 int8 5 (whole 0)
    ∷ param 45 16 float32 6 (whole 0)
    ∷ []

unfoldable pub tms_local_params : List ParamEntry
tms_local_params = []

unfoldable pub tms_isim_params : List ParamEntry
tms_isim_params =
    param 39 1 boolean 0 (whole 0)
    ∷ param 40 8 int8 1 (whole 0)
    ∷ param 41 8 int8 2 (whole 0)
    ∷ param 42 8 int8 3 (whole 0)
    ∷ param 43 8 int8 4 (whole 0)
    ∷ param 44 8 int8 5 (whole 0)
    ∷ param 45 16 float32 6 (whole 0)
    ∷ []
