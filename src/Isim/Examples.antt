-- ===== src/Isim/Examples.antt =====
-- A concrete store of variables of i_sim.cpp.
use arachnopod.Base.{ℕ, some, [], ◌∷◌, ◌≡◌, ◌≢◌, refl, arith, get_or, ℤ, pos}
use arachnopod.Ipar.WholeFloats.{whole_floats}
use arachnopod.Isim.Values.{u8_kind, s8_kind, plain, binary, ok, Binding, u8_value, s8_value}
use arachnopod.Isim.Registry.{find_binding, lower_bound}
use arachnopod.Isim.Access.{SimStore, no_cell, isimgeti32, isimseti32}
use arachnopod.Isim.Stored.{kept_value, Takes, IsBound, isimgeti32-isimseti32}

abbrev level : Binding
level = record { id = 9; kind = s8_kind; domain = plain; ptr = some 1 }

abbrev two_variables : SimStore ℤ
two_variables = record {
  registry = some (record { id = 4; kind = u8_kind; domain = binary; ptr = some 0 } ∷ level ∷ []);
  cells = u8_value 1 ∷ s8_value (pos 0) ∷ [];
}

level_bound : IsBound whole_floats two_variables 9 level 1
unfolding find_binding lower_bound
level_bound = record {
  bindings = _;
  registry = refl;
  found = refl;
  points = refl;
  held = ground arith;
}

level-Takes : Takes s8_kind (pos 300)
level-Takes = ground arith

isimgeti32-isimseti32_example :
    let after = isimseti32 whole_floats 9 (pos 300) two_variables in
    (after.0 ≡ ok)
    × (isimgeti32 whole_floats 9 after.1 ≡ (ok, some (kept_value s8_kind plain (pos 300))))
    × ((q : ℕ) → 1 ≢ q → get_or after.1.cells q no_cell ≡ get_or two_variables.cells q no_cell)
isimgeti32-isimseti32_example =
    isimgeti32-isimseti32 whole_floats two_variables 9 1 level (pos 300) level_bound level-Takes
