-- ===== src/Base/Bits.antt =====
-- The binary digits of a word, as bit-fields of a little-endian unit number them: digit 0 is the
-- lowest. `put_bit` overwrites one digit.
use Prim.Native.Nat.{ℕ, zero, suc, ◌+◌, ◌*◌, ◌/◌, ◌%◌, ◌^◌, ◌<◌}
use mathlib.Core.Path.{◌≡◌, refl, ap}
use mathlib.Core.Logic.{◌≢◌}
use native.Mathlib.Nat.{pow-suc}
use native.Mathlib.Omega.{arith}

unfoldable pub bit : ℕ → ℕ → ℕ
bit zero w = w % 2
bit (suc k) w = bit k (w / 2)

unfoldable pub put_bit : ℕ → ℕ → ℕ → ℕ
put_bit zero v w = w / 2 * 2 + v
put_bit (suc k) v w = put_bit k v (w / 2) * 2 + w % 2

-- The number of set digits among the lowest `n`.
unfoldable pub popcount : ℕ → ℕ → ℕ
popcount zero w = 0
popcount (suc n) w = w % 2 + popcount n (w / 2)

pub bit-lt : (k w : ℕ) → bit k w < 2
unfolding bit
bit-lt zero w = omega arith
bit-lt (suc k) w = bit-lt k (w / 2)

pub bit-put_bit_self : (k v w : ℕ) → v < 2 → bit k (put_bit k v w) ≡ v
unfolding bit put_bit
bit-put_bit_self zero v w h = omega arith
bit-put_bit_self (suc k) v w h =
    let e : (put_bit k v (w / 2) * 2 + w % 2) / 2 ≡ put_bit k v (w / 2) = omega arith in
    rw e (bit-put_bit_self k v (w / 2) h)

pub bit-put_bit_ne : (k j v w : ℕ) → v < 2 → k ≢ j → bit j (put_bit k v w) ≡ bit j w
unfolding bit put_bit
bit-put_bit_ne zero zero v w h ne = absurd (ne refl)
bit-put_bit_ne zero (suc j) v w h ne = ap (bit j) (omega arith)
bit-put_bit_ne (suc k) zero v w h ne = omega arith
bit-put_bit_ne (suc k) (suc j) v w h ne =
    let e : (put_bit k v (w / 2) * 2 + w % 2) / 2 ≡ put_bit k v (w / 2) = omega arith in
    rw e (bit-put_bit_ne k j v (w / 2) h (λ e. ne (ap suc e)))

pub put_bit-lt : (n k v w : ℕ) → v < 2 → k < n → w < 2 ^ n → put_bit k v w < 2 ^ n
unfolding put_bit
put_bit-lt zero k v w h p q = absurd (omega arith)
put_bit-lt (suc n) zero v w h p q = omega (arith, pow-suc 2 n)
put_bit-lt (suc n) (suc k) v w h p q =
    omega
      (arith, pow-suc 2 n, put_bit-lt n k v (w / 2) h (omega arith) (omega (arith, pow-suc 2 n)))
