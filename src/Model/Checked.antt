-- ===== src/Model/Checked.antt =====
-- The tables of the simulation models against the parameter table of the messages.
use arachnopod.Base.{
  Bool, true, ◌&&◌, ◌||◌, List, [], ◌∷◌, ◌++◌, ◌≡◌, refl, ltb, ◌==◌, not, get_or, length,
}
use arachnopod.Tables.Config.{param_max}
use arachnopod.Tables.Entry.{type_width_bits}
use arachnopod.Tables.Rows.{no_entry}
use arachnopod.Tables.Params.{base_param_tab}
use arachnopod.Isim.Registry.{ParamEntry}
use arachnopod.Model.PssTables.{pss_params, pss_local_params, pss_isim_params}
use arachnopod.Model.MnsTables.{mns_params, mns_local_params}
use arachnopod.Model.MnsIsim.{mns_isim_params}
use arachnopod.Model.SmallTables.{
  cs_params, cs_local_params, cs_isim_params, ls_params, ls_local_params, ls_isim_params,
  tcs_params, tcs_local_params, tcs_isim_params, tms_params, tms_local_params, tms_isim_params,
}
use arachnopod.Model.Registered.{ascending}
use arachnopod.Model.Initial.{addressed}

-- An entry that has a row in the parameter table has the width of the row.
unfoldable pub widths_agree : List ParamEntry → Bool
widths_agree [] = true
widths_agree (e ∷ es) =
    (not (ltb e.id param_max)
      || (e.wire_bits == type_width_bits (get_or base_param_tab e.id no_entry).type))
    && widths_agree es

-- `ISIM_PARAMS` is `PARAMS` and then `LOCAL_PARAMS`; its identifiers ascend, as the search in the
-- registry needs; its variables are distinct; and its widths are those of the messages.
abbrev pub IsConsistent : List ParamEntry → List ParamEntry → List ParamEntry → Type 0
IsConsistent params local isim =
    (params ++ local ≡ isim)
    × (ascending 0 isim ≡ true)
    × (addressed 0 (length isim) isim ≡ true)
    × (widths_agree isim ≡ true)

-- The tables of PSS, CS, LS, TCS and TMS are consistent.
pub tables-IsConsistent :
    IsConsistent pss_params pss_local_params pss_isim_params
    × IsConsistent cs_params cs_local_params cs_isim_params
    × IsConsistent ls_params ls_local_params ls_isim_params
    × IsConsistent tcs_params tcs_local_params tcs_isim_params
    × IsConsistent tms_params tms_local_params tms_isim_params
    × IsConsistent mns_params mns_local_params mns_isim_params
unfolding pss_params pss_local_params pss_isim_params cs_params cs_local_params cs_isim_params
    ls_params ls_local_params ls_isim_params tcs_params tcs_local_params tcs_isim_params tms_params
    tms_local_params tms_isim_params mns_params mns_local_params mns_isim_params ascending addressed
    widths_agree base_param_tab type_width_bits
tables-IsConsistent = (
  (refl, refl, refl, refl),
  (refl, refl, refl, refl),
  (refl, refl, refl, refl),
  (refl, refl, refl, refl),
  (refl, refl, refl, refl),
  (refl, refl, refl, refl),
)
