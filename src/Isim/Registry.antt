-- ===== src/Isim/Registry.antt =====
-- The registry of i_isim_registry.cpp and its search in i_sim.cpp.
use arachnopod.Base.{ℕ, Option, none, some, List, [], ◌∷◌, ltb, ◌==◌, if◌then◌else◌}
use arachnopod.Isim.Values.{
  Kind, u8_kind, s8_kind, u16_kind, s16_kind, f32_kind, Domain, plain, non_negative, binary,
  Binding,
}

-- `physical_type_t` of simulation/base/include/sim_base.hpp
pub data PhysicalType : Type 0 where
  boolean int8 uint8 int16 uint16 float32 ufloat32 : PhysicalType

-- The initial values of the tables, doubles: whole numbers and halves.
pub data Initial : Type 0 where
  whole halves : ℕ → Initial

-- `param_entry_t` without its `key`.
pub record ParamEntry : Type 0 where
  pub id : ℕ
  pub wire_bits : ℕ
  pub physical_type : PhysicalType
  pub ptr : Option ℕ
  pub init_value : Initial

unfoldable pub isimkind : PhysicalType → Kind
isimkind boolean = u8_kind
isimkind uint8 = u8_kind
isimkind int8 = s8_kind
isimkind uint16 = u16_kind
isimkind int16 = s16_kind
isimkind float32 = f32_kind
isimkind ufloat32 = f32_kind

unfoldable pub isimdomain : PhysicalType → Domain
isimdomain boolean = binary
isimdomain uint8 = non_negative
isimdomain uint16 = non_negative
isimdomain ufloat32 = non_negative
isimdomain _ = plain

abbrev pub binding_of : ParamEntry → Binding
binding_of p = record {
  id = p.id;
  kind = isimkind p.physical_type;
  domain = isimdomain p.physical_type;
  ptr = p.ptr;
}

-- `ISIMREG_BUILD`: the bindings of the entries, in their order. Of an empty list it makes the empty
-- registry, and binds none.
unfoldable pub isimreg_build : List ParamEntry → List Binding
isimreg_build [] = []
isimreg_build (p ∷ ps) = binding_of p ∷ isimreg_build ps

-- `std::lower_bound` on bindings that are sorted by `id`: the first whose `id` is not less.
unfoldable pub lower_bound : List Binding → ℕ → Option Binding
lower_bound [] id = none
lower_bound (b ∷ bs) id = if ltb b.id id then lower_bound bs id else some b

abbrev pub with_id : ℕ → Option Binding → Option Binding
with_id id none = none
with_id id (some b) = if b.id == id then some b else none

unfoldable pub find_binding : List Binding → ℕ → Option Binding
unfolding lower_bound
find_binding bindings id = with_id id (lower_bound bindings id)
