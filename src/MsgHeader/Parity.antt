-- ===== src/MsgHeader/Parity.antt =====
-- The parity digit of i_msg_header.cpp: what `parity_ok` and `parse` reject.
use arachnopod.Base.{ℕ, zero, suc, ◌+◌, ◌-◌, ◌*◌, ◌/◌, ◌%◌, ◌<◌, true, none}
use arachnopod.Base.{◌≡◌, refl, arith, ◌==◌, bit, put_bit, popcount, bit-lt}
use arachnopod.MsgHeader.{calc_parity, parity_ok, parse}

-- Overwriting a counted digit changes the count by the difference of the digits.
popcount-put_bit :
    (n k v w : ℕ) → v < 2 → k < n → popcount n (put_bit k v w) + bit k w ≡ popcount n w + v
unfolding popcount put_bit bit
popcount-put_bit zero k v w hv h = absurd (omega arith)
popcount-put_bit (suc n) zero v w hv h =
    let e : (w / 2 * 2 + v) / 2 ≡ w / 2 = omega arith in rw e (omega arith)
popcount-put_bit (suc n) (suc k) v w hv h =
    let e : (put_bit k v (w / 2) * 2 + w % 2) / 2 ≡ put_bit k v (w / 2) = omega arith in
    rw e (omega (arith, popcount-put_bit n k v (w / 2) hv (omega arith)))

popcount_step : (w : ℕ) → popcount 32 w ≡ w % 2 + popcount 31 (w / 2)
unfolding popcount
popcount_step w = refl

-- A header passes `parity_ok` exactly when it has an even number of ones.
pub parity_ok-even : (raw : ℕ) → parity_ok raw ≡ (popcount 32 raw % 2 == 0)
unfolding parity_ok calc_parity
parity_ok-even raw =
    let cleared : (raw / 2 * 2 + 0 % 2) / 2 ≡ raw / 2 = omega arith in
    ground (arith, popcount_step raw, popcount_step (raw / 2 * 2 + 0 % 2), cleared)

-- Changing any one digit of a header that passes `parity_ok` gives one that `parse` rejects.
pub parse-flip :
    (raw k : ℕ) → k < 16 → parity_ok raw ≡ true → parse (put_bit k (1 - bit k raw) raw) ≡ none
unfolding parse
parse-flip raw k h ok = ground (
  arith,
  parity_ok-even raw,
  parity_ok-even (put_bit k (1 - bit k raw) raw),
  popcount-put_bit 32 k (1 - bit k raw) raw,
  bit-lt k raw,
)
