-- ===== src/Model/Examples.antt =====
-- Concrete tables of the simulation models.
use arachnopod.Base.{true, ◌≡◌, refl, arith, replicate, get_or, length, ◌<◌}
use arachnopod.Ipar.WholeFloats.{whole_floats}
use arachnopod.Isim.Access.{no_cell}
use arachnopod.Isim.Registry.{isimreg_build, find_binding}
use arachnopod.Model.Params.{init_params, initial_value, find_param_by_id}
use arachnopod.Model.PssTables.{pss_params}
use arachnopod.Model.MnsIsim.{mns_isim_params}
use arachnopod.Model.Registered.{no_param, ascending, binding_or_none, find_binding-isimreg_build}
use arachnopod.Model.Initial.{address, addressed, init_params_lem}

mns-ascending : ascending 0 mns_isim_params ≡ true
unfolding ascending mns_isim_params
mns-ascending = refl

find_binding-isimreg_build_example :
    find_binding (isimreg_build mns_isim_params) 32800
    ≡ binding_or_none (find_param_by_id mns_isim_params 32800)
find_binding-isimreg_build_example =
    find_binding-isimreg_build mns_isim_params 0 32800 mns-ascending

pss-addressed : addressed 0 31 pss_params ≡ true
unfolding addressed pss_params
pss-addressed = refl

pss-long : 16 < length pss_params
unfolding pss_params
pss-long = omega arith

init_params_lem_example :
    get_or
      (init_params whole_floats pss_params (replicate 31 no_cell))
      (address (get_or pss_params 16 no_param).ptr)
      no_cell
    ≡ initial_value whole_floats
        (get_or pss_params 16 no_param).physical_type
        (get_or pss_params 16 no_param).init_value
init_params_lem_example =
    init_params_lem whole_floats pss_params (replicate 31 no_cell) 0 31 16 pss-addressed
      (ground arith) pss-long
