-- ===== src/Model/Params.antt =====
-- software/sim/sim/simulation/base/include/sim_base.hpp: setting the variables of a model to zero and
-- to their initial values, and finding an entry of a table.
use arachnopod.Base.{ℕ, Option, none, some, List, [], ◌∷◌, ◌==◌, if◌then◌else◌, set, pos}
use arachnopod.Base.{◌/◌}
use arachnopod.Ipar.Floats.{FloatOps}
use arachnopod.Isim.Values.{SimValue, u8_value, s8_value, u16_value, s16_value, f32_value}
use arachnopod.Isim.Registry.{
  PhysicalType, boolean, int8, uint8, int16, uint16, float32, ufloat32, Initial, whole, halves,
  ParamEntry,
}

abbrev pub param : ℕ → ℕ → PhysicalType → ℕ → Initial → ParamEntry
param id wire_bits physical_type address init_value = record {
  id = id;
  wire_bits = wire_bits;
  physical_type = physical_type;
  ptr = some address;
  init_value = init_value;
}

-- The integer that the conversion of an initial value to an integer type gives.
abbrev pub truncated : Initial → ℕ
truncated (whole n) = n
truncated (halves n) = n / 2

abbrev pub nonzero : Initial → ℕ
nonzero (whole n) = if n == 0 then 0 else 1
nonzero (halves n) = if n == 0 then 0 else 1

module _ {F : Type 0} (ops : FloatOps F) where
  abbrev pub initial_float : Initial → F
  initial_float (whole n) = ops.of_int (pos n)
  initial_float (halves n) = ops.div (ops.of_int (pos n)) (ops.of_int (pos 2))

  -- The value that `init_param` assigns; the tables' integers are in the range of their types.
  unfoldable pub initial_value : PhysicalType → Initial → SimValue F
  initial_value boolean i = u8_value (nonzero i)
  initial_value int8 i = s8_value (pos (truncated i))
  initial_value uint8 i = u8_value (truncated i)
  initial_value int16 i = s16_value (pos (truncated i))
  initial_value uint16 i = u16_value (truncated i)
  initial_value float32 i = f32_value (ops.to_float (initial_float i))
  initial_value ufloat32 i = f32_value (ops.to_float (initial_float i))

  unfoldable pub zero_value_of : PhysicalType → SimValue F
  zero_value_of boolean = u8_value 0
  zero_value_of int8 = s8_value (pos 0)
  zero_value_of uint8 = u8_value 0
  zero_value_of int16 = s16_value (pos 0)
  zero_value_of uint16 = u16_value 0
  zero_value_of float32 = f32_value (ops.of_int (pos 0))
  zero_value_of ufloat32 = f32_value (ops.of_int (pos 0))

  abbrev pub assign : Option ℕ → SimValue F → List (SimValue F) → List (SimValue F)
  assign none value cells = cells
  assign (some p) value cells = set cells p value

  unfoldable pub zero_param : ParamEntry → List (SimValue F) → List (SimValue F)
  zero_param e cells = assign e.ptr (zero_value_of e.physical_type) cells

  unfoldable pub init_param : ParamEntry → List (SimValue F) → List (SimValue F)
  init_param e cells = assign e.ptr (initial_value e.physical_type e.init_value) cells

  unfoldable pub zero_params : List ParamEntry → List (SimValue F) → List (SimValue F)
  zero_params [] cells = cells
  zero_params (e ∷ es) cells = zero_params es (zero_param e cells)

  unfoldable pub init_params : List ParamEntry → List (SimValue F) → List (SimValue F)
  init_params [] cells = cells
  init_params (e ∷ es) cells = init_params es (init_param e cells)

unfoldable pub find_param_by_id : List ParamEntry → ℕ → Option ParamEntry
find_param_by_id [] id = none
find_param_by_id (e ∷ es) id = if e.id == id then some e else find_param_by_id es id
