-- ===== src/Ipar/Floats.antt =====
-- The floating point arithmetic that i_par.cpp, i_cmd.cpp and i_sim.cpp use, as a parameter. The
-- compiler's `float` and `double` and the functions of <cmath> are not code of the repository.
use arachnopod.Base.{Bool, true, ◌≡◌, ℤ, pos_part, neg_part, ◌≤◌}

-- `F` has the values of `double`, and `float` as those that `to_float` leaves alone.
pub record FloatOps (F : Type 0) : Type 0 where
  pub of_int : ℤ → F
  pub to_float : F → F
  pub add : F → F → F
  pub sub : F → F → F
  pub mul : F → F → F
  pub div : F → F → F
  pub neg : F → F
  pub sqrt : F → F
  pub abs : F → F
  pub floor : F → ℤ
  pub ceil : F → ℤ
  pub llround : F → ℤ
  pub is_finite : F → Bool
  pub less : F → F → Bool
  pub equal : F → F → Bool
  pub infinity : F

-- What IEEE 754 promises of the integers that have are at most 65536, which a `float` represents:
-- they are exact, finite and rounded to themselves, and a difference of equals is 0.
pub record IsExact {F : Type 0} (ops : FloatOps F) : Type 0 where
  pub float_int :
      (z : ℤ) → pos_part z ≤ 65536 → neg_part z ≤ 65536 → ops.to_float (ops.of_int z) ≡ ops.of_int z
  pub floor_int : (z : ℤ) → pos_part z ≤ 65536 → neg_part z ≤ 65536 → ops.floor (ops.of_int z) ≡ z
  pub ceil_int : (z : ℤ) → pos_part z ≤ 65536 → neg_part z ≤ 65536 → ops.ceil (ops.of_int z) ≡ z
  pub llround_int :
      (z : ℤ) → pos_part z ≤ 65536 → neg_part z ≤ 65536 → ops.llround (ops.of_int z) ≡ z
  pub finite_int :
      (z : ℤ) → pos_part z ≤ 65536 → neg_part z ≤ 65536 → ops.is_finite (ops.of_int z) ≡ true
  pub error_int :
      (z : ℤ)
      → pos_part z ≤ 65536
      → neg_part z ≤ 65536
      → ops.less (ops.abs (ops.sub (ops.of_int z) (ops.of_int z))) ops.infinity ≡ true
