-- ===== src/Isim/Access.antt =====
-- ISIMGET, ISIMSET and their conversions of i_sim.cpp. The lock of the model's data is held for
-- the whole of each operation, so operations do not overlap.
use arachnopod.Base.{ℕ, Option, none, some, List, get_or, set, if◌then◌else◌, ℤ}
use arachnopod.Isim.Values.{
  IsimStatus, ok, no_registry, id_not_found, type_mismatch, value_out_of_range, null_pointer,
  SimValue, u8_value, kind_of, same_kind, Binding, isimi32, isimf32, normalized, payload_i32,
  payload_f32,
}
use arachnopod.Isim.Registry.{find_binding}
use arachnopod.Ipar.Floats.{FloatOps}

-- The bound registry, if there is one, and the variables of the model. A variable holds a value of
-- the kind of the bindings to it.
pub record SimStore (F : Type 0) : Type 0 where
  pub registry : Option (List Binding)
  pub cells : List (SimValue F)

abbrev pub no_cell : {F : Type 0} → SimValue F
no_cell = u8_value 0

module _ {F : Type 0} (ops : FloatOps F) where
  abbrev pub read_at : SimStore F → Option ℕ → IsimStatus × Option (SimValue F)
  read_at s none = (null_pointer, none)
  read_at s (some p) = (ok, some (get_or s.cells p no_cell))

  unfoldable pub read_typed_value : SimStore F → Binding → IsimStatus × Option (SimValue F)
  read_typed_value s b = read_at s b.ptr

  abbrev pub write_at : SimStore F → Binding → Option ℕ → SimValue F → IsimStatus × SimStore F
  write_at s b none v = (null_pointer, s)
  write_at s b (some p) v =
      if same_kind (kind_of v) b.kind
      then (ok, record s { cells = set s.cells p (normalized ops b.domain v) })
      else (type_mismatch, s)

  unfoldable pub write_typed_value : SimStore F → Binding → SimValue F → IsimStatus × SimStore F
  write_typed_value s b v = write_at s b b.ptr v

  abbrev pub found_or_not : Option Binding → IsimStatus × Option Binding
  found_or_not none = (id_not_found, none)
  found_or_not (some b) = (ok, some b)

  -- The binding of an identifier, or the status that refuses it.
  abbrev pub bound_in : ℕ → Option (List Binding) → IsimStatus × Option Binding
  bound_in id none = (no_registry, none)
  bound_in id (some bindings) = found_or_not (find_binding bindings id)

  abbrev pub get_bound : SimStore F → IsimStatus × Option Binding → IsimStatus × Option (SimValue F)
  get_bound s (status, none) = (status, none)
  get_bound s (_, some b) = read_typed_value s b

  unfoldable pub isimget : ℕ → SimStore F → IsimStatus × Option (SimValue F)
  isimget id s = get_bound s (bound_in id s.registry)

  abbrev pub set_bound :
      SimStore F → SimValue F → IsimStatus × Option Binding → IsimStatus × SimStore F
  set_bound s v (status, none) = (status, s)
  set_bound s v (_, some b) = write_typed_value s b v

  unfoldable pub isimset : ℕ → SimValue F → SimStore F → IsimStatus × SimStore F
  isimset id v s = set_bound s v (bound_in id s.registry)

  abbrev pub converted {ℓ} :
      {A : Type ℓ} → (SimValue F → A) → IsimStatus × Option (SimValue F) → IsimStatus × Option A
  converted f (status, none) = (status, none)
  converted f (_, some v) = (ok, some (f v))

  -- The out parameter is `none` where the source leaves it alone.
  unfoldable pub isimgeti32 : ℕ → SimStore F → IsimStatus × Option ℤ
  isimgeti32 id s = converted (isimi32 ops) (isimget id s)

  unfoldable pub isimgetf32 : ℕ → SimStore F → IsimStatus × Option F
  isimgetf32 id s = converted (isimf32 ops) (isimget id s)

  abbrev pub put_payload : SimStore F → Binding → Option (SimValue F) → IsimStatus × SimStore F
  put_payload s b none = (value_out_of_range, s)
  put_payload s b (some v) = write_typed_value s b v

  abbrev pub seti32_bound : SimStore F → ℤ → IsimStatus × Option Binding → IsimStatus × SimStore F
  seti32_bound s v (status, none) = (status, s)
  seti32_bound s v (_, some b) = put_payload s b (payload_i32 ops b.kind v)

  unfoldable pub isimseti32 : ℕ → ℤ → SimStore F → IsimStatus × SimStore F
  isimseti32 id v s = seti32_bound s v (bound_in id s.registry)

  abbrev pub setf32_bound : SimStore F → F → IsimStatus × Option Binding → IsimStatus × SimStore F
  setf32_bound s v (status, none) = (status, s)
  setf32_bound s v (_, some b) = put_payload s b (payload_f32 ops b.kind v)

  unfoldable pub isimsetf32 : ℕ → F → SimStore F → IsimStatus × SimStore F
  isimsetf32 id v s = setf32_bound s v (bound_in id s.registry)
