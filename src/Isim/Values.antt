-- ===== src/Isim/Values.antt =====
-- The values of i_sim.hpp, over the floating point arithmetic `ops`.
use arachnopod.Base.{ℕ, Bool, true, false, Option, none, some, ◌==◌, if◌then◌else◌, not, ◌&&◌}
use arachnopod.Base.{ℤ, pos, negsuc, pos_part, ltb_ℤ, clamp_ℤ, to_u32, to_i32}
use arachnopod.Ipar.Floats.{FloatOps}

-- `value_kind_t`
pub data Kind : Type 0 where
  u8_kind s8_kind u16_kind s16_kind u32_kind s32_kind f32_kind : Kind

-- `value_domain_t`
pub data Domain : Type 0 where
  plain non_negative binary : Domain

-- `status_t`
pub data IsimStatus : Type 0 where
  ok no_registry bad_argument id_not_found type_mismatch value_out_of_range null_pointer :
      IsimStatus

-- `value_t`: the kind says which member of the union holds the value.
pub data SimValue (F : Type 0) : Type 0 where
  u8_value : ℕ → SimValue F
  s8_value : ℤ → SimValue F
  u16_value : ℕ → SimValue F
  s16_value : ℤ → SimValue F
  u32_value : ℕ → SimValue F
  s32_value : ℤ → SimValue F
  f32_value : F → SimValue F

abbrev pub kind_of : {F : Type 0} → SimValue F → Kind
kind_of (u8_value _) = u8_kind
kind_of (s8_value _) = s8_kind
kind_of (u16_value _) = u16_kind
kind_of (s16_value _) = s16_kind
kind_of (u32_value _) = u32_kind
kind_of (s32_value _) = s32_kind
kind_of (f32_value _) = f32_kind

abbrev pub same_kind : Kind → Kind → Bool
same_kind u8_kind u8_kind = true
same_kind s8_kind s8_kind = true
same_kind u16_kind u16_kind = true
same_kind s16_kind s16_kind = true
same_kind u32_kind u32_kind = true
same_kind s32_kind s32_kind = true
same_kind f32_kind f32_kind = true
same_kind _ _ = false

-- `binding_t`; `ptr` is the address of the variable in the store, or `none` for null.
pub record Binding : Type 0 where
  pub id : ℕ
  pub kind : Kind
  pub domain : Domain
  pub ptr : Option ℕ

abbrev pub is_binary : Domain → Bool
is_binary binary = true
is_binary _ = false

abbrev pub is_non_negative : Domain → Bool
is_non_negative non_negative = true
is_non_negative _ = false

module _ {F : Type 0} (ops : FloatOps F) where
  abbrev pub f32_zero : F
  f32_zero = ops.of_int (pos 0)

  unfoldable pub clamp_f32_domain : Domain → F → F
  clamp_f32_domain domain value =
      if is_binary domain
      then (if not (ops.equal value f32_zero) then ops.of_int (pos 1) else f32_zero)
      else if is_non_negative domain && ops.less value f32_zero
      then f32_zero
      else value

  -- The conversion of a `long` to `int32_t`.
  abbrev pub lround_i32 : F → ℤ
  lround_i32 value = to_i32 (to_u32 (ops.llround value))

  unfoldable pub isimi32 : SimValue F → ℤ
  isimi32 (u8_value n) = pos n
  isimi32 (s8_value z) = z
  isimi32 (u16_value n) = pos n
  isimi32 (s16_value z) = z
  isimi32 (u32_value n) = to_i32 n
  isimi32 (s32_value z) = z
  isimi32 (f32_value f) = lround_i32 f

  unfoldable pub isimf32 : SimValue F → F
  isimf32 (u8_value n) = ops.of_int (pos n)
  isimf32 (s8_value z) = ops.of_int z
  isimf32 (u16_value n) = ops.of_int (pos n)
  isimf32 (s16_value z) = ops.of_int z
  isimf32 (u32_value n) = ops.to_float (ops.of_int (pos n))
  isimf32 (s32_value z) = ops.to_float (ops.of_int z)
  isimf32 (f32_value f) = f

  -- What `write_typed_value` stores of a value of the right kind.
  unfoldable pub normalized : Domain → SimValue F → SimValue F
  unfolding clamp_f32_domain
  normalized domain (u8_value n) =
      u8_value (if is_binary domain then (if n == 0 then 0 else 1) else n)
  normalized domain (f32_value f) = f32_value (clamp_f32_domain domain f)
  normalized _ value = value

  -- The payload of `ISIMSETI32`, or `none` for `value_out_of_range`.
  unfoldable pub payload_i32 : Kind → ℤ → Option (SimValue F)
  payload_i32 u8_kind v = some (u8_value (pos_part (clamp_ℤ v (pos 0) (pos 255))))
  payload_i32 s8_kind v = some (s8_value (clamp_ℤ v (negsuc 127) (pos 127)))
  payload_i32 u16_kind v = some (u16_value (pos_part (clamp_ℤ v (pos 0) (pos 65535))))
  payload_i32 s16_kind v = some (s16_value (clamp_ℤ v (negsuc 32767) (pos 32767)))
  payload_i32 u32_kind v = if ltb_ℤ v (pos 0) then none else some (u32_value (to_u32 v))
  payload_i32 s32_kind v = some (s32_value v)
  payload_i32 f32_kind v = some (f32_value (ops.to_float (ops.of_int v)))

  -- The payload of `ISIMSETF32`.
  unfoldable pub payload_f32 : Kind → F → Option (SimValue F)
  payload_f32 u8_kind v = some (u8_value (pos_part (clamp_ℤ (lround_i32 v) (pos 0) (pos 255))))
  payload_f32 s8_kind v = some (s8_value (clamp_ℤ (lround_i32 v) (negsuc 127) (pos 127)))
  payload_f32 u16_kind v = some (u16_value (pos_part (clamp_ℤ (lround_i32 v) (pos 0) (pos 65535))))
  payload_f32 s16_kind v = some (s16_value (clamp_ℤ (lround_i32 v) (negsuc 32767) (pos 32767)))
  payload_f32 u32_kind v =
      if ops.less v f32_zero then none else some (u32_value (to_u32 (ops.llround v)))
  payload_f32 s32_kind v = some (s32_value (lround_i32 v))
  payload_f32 f32_kind v = some (f32_value v)
