-- ===== src/Ipar/WholeFloats.antt =====
-- An arithmetic for tests: whole numbers in place of floating point ones.
use arachnopod.Base.{ℕ, ◌+◌, ◌-◌, ◌*◌, true, ltb, if◌then◌else◌, refl, arith}
use arachnopod.Base.{ℤ, pos, negsuc, pos_part, neg_part, ltb_ℤ, eqb_ℤ}
use arachnopod.Ipar.Floats.{FloatOps, IsExact}

-- `p - n`
abbrev difference : ℕ → ℕ → ℤ
difference p n = if ltb p n then negsuc (n - p - 1) else pos (p - n)

abbrev pub whole_floats : FloatOps ℤ
whole_floats = record {
  of_int = λ z. z;
  to_float = λ z. z;
  add = λ a b. difference (pos_part a + pos_part b) (neg_part a + neg_part b);
  sub = λ a b. difference (pos_part a + neg_part b) (neg_part a + pos_part b);
  mul = λ a b.
      difference (pos_part a * pos_part b + neg_part a * neg_part b)
        (pos_part a * neg_part b + neg_part a * pos_part b);
  div = λ a b. a;
  neg = λ a. difference (neg_part a) (pos_part a);
  sqrt = λ a. a;
  abs = λ a. pos (pos_part a + neg_part a);
  floor = λ z. z;
  ceil = λ z. z;
  llround = λ z. z;
  is_finite = λ z. true;
  less = ltb_ℤ;
  equal = eqb_ℤ;
  infinity = pos 1000000;
}

pub whole_floats-IsExact : IsExact whole_floats
whole_floats-IsExact = record {
  float_int = λ z p n. refl;
  floor_int = λ z p n. refl;
  ceil_int = λ z p n. refl;
  llround_int = λ z p n. refl;
  finite_int = λ z p n. refl;
  error_int = λ z p n. ground arith;
}
