-- ===== src/Model/Registered.antt =====
-- What the tables of the simulation models and the registry of i_isim_registry.cpp guarantee
-- together: that the binary search of i_sim.cpp finds every entry.
use arachnopod.Base.{ℕ, suc, ◌<◌, Bool, true, ◌&&◌, Option, none, some, List, [], ◌∷◌}
use arachnopod.Base.{◌≡◌, refl, arith, leb}
use arachnopod.Isim.Registry.{
  ParamEntry, isimreg_build, binding_of, lower_bound, find_binding, boolean, whole,
}
use arachnopod.Isim.Values.{Binding}
use arachnopod.Model.Params.{param, find_param_by_id}

abbrev pub no_param : ParamEntry
no_param = param 0 0 boolean 0 (whole 0)

-- The identifiers are in strictly ascending order, all at least `low`.
unfoldable pub ascending : ℕ → List ParamEntry → Bool
ascending low [] = true
ascending low (e ∷ es) = leb low e.id && ascending (suc e.id) es

abbrev pub binding_or_none : Option ParamEntry → Option Binding
binding_or_none none = none
binding_or_none (some e) = some (binding_of e)

below_all :
    (es : List ParamEntry) (low id : ℕ)
    → ascending low es ≡ true
    → id < low
    → find_param_by_id es id ≡ none
unfolding ascending find_param_by_id
below_all [] low id h lt = refl
below_all (e ∷ es) low id h lt = ground (arith, below_all es (suc e.id) id)

-- In a registry that is built of a table with ascending identifiers, the binary search finds the
-- binding of an identifier exactly where a search from the front finds its entry.
pub find_binding-isimreg_build :
    (es : List ParamEntry) (low id : ℕ)
    → ascending low es ≡ true
    → find_binding (isimreg_build es) id ≡ binding_or_none (find_param_by_id es id)
unfolding ascending find_param_by_id isimreg_build find_binding lower_bound
find_binding-isimreg_build [] low id h = refl
find_binding-isimreg_build (e ∷ es) low id h =
    ground (arith, find_binding-isimreg_build es (suc e.id) id, below_all es (suc e.id) id)
