-- ===== src/OperatingMode/Fair.antt =====
-- A failure streak and a cooldown of cs_operating_mode.cpp that belong together.
use arachnopod.Base.{ℕ, zero, suc, ◌-◌, ◌≤◌, ◌<◌, List, [], ◌∷◌, ◌≡◌, ◌≢◌, arith, length}
use arachnopod.Base.{get_or, set, replicate}
use arachnopod.Scheduler.Types.{CompletionResult}
use arachnopod.OperatingMode.{penalty, failure_threshold_for, cooldown_ticks_for}

-- A streak and a cooldown that belong together: both bounded, a target that is polled has fewer
-- than three failures, and one that cools down has failed.
unfoldable pub IsFair : ℕ → ℕ → Type 0
IsFair streak cooldown =
    (streak ≤ 255) × (cooldown ≤ 160) × (cooldown ≡ 0 → streak < 3) × (0 < cooldown → 0 < streak)

abbrev pub AreFair : List ℕ → List ℕ → Type 0
AreFair xs ys = (i : ℕ) → IsFair (get_or xs i 0) (get_or ys i 0)

pub IsFair-penalty :
    (r : CompletionResult) (a b : ℕ) → IsFair a b → IsFair (penalty r a b).0 (penalty r a b).1
unfolding IsFair failure_threshold_for cooldown_ticks_for
IsFair-penalty CompletionResult.none a b h = ground arith
IsFair-penalty CompletionResult.success a b h = ground arith
IsFair-penalty CompletionResult.timeout a b h = ground arith
IsFair-penalty CompletionResult.invalid_eof a b h = ground arith

pub IsFair-zero : IsFair 0 0
unfolding IsFair
IsFair-zero = ground arith

pub AreFair-set :
    (xs ys : List ℕ) (i a b : ℕ)
    → length xs ≡ length ys
    → AreFair xs ys
    → IsFair a b
    → AreFair (set xs i a) (set ys i b)
AreFair-set [] [] i a b e h f j = h j
AreFair-set [] (y ∷ ys) i a b e h f j = absurd (omega arith)
AreFair-set (x ∷ xs) [] i a b e h f j = absurd (omega arith)
AreFair-set (x ∷ xs) (y ∷ ys) zero a b e h f zero = f
AreFair-set (x ∷ xs) (y ∷ ys) zero a b e h f (suc j) = h (suc j)
AreFair-set (x ∷ xs) (y ∷ ys) (suc i) a b e h f zero = h zero
AreFair-set (x ∷ xs) (y ∷ ys) (suc i) a b e h f (suc j) =
    AreFair-set xs ys i a b (omega arith) (λ k. h (suc k)) f j

pub AreFair-zeros : (n : ℕ) → AreFair (replicate n 0) (replicate n 0)
AreFair-zeros zero j = IsFair-zero
AreFair-zeros (suc n) zero = IsFair-zero
AreFair-zeros (suc n) (suc j) = AreFair-zeros n j

-- A cooldown alone may change to one that belongs to the streak.
pub AreFair-set_right :
    (xs ys : List ℕ) (i b : ℕ)
    → length xs ≡ length ys
    → AreFair xs ys
    → IsFair (get_or xs i 0) b
    → AreFair xs (set ys i b)
AreFair-set_right [] [] i b e h f j = h j
AreFair-set_right [] (y ∷ ys) i b e h f j = absurd (omega arith)
AreFair-set_right (x ∷ xs) [] i b e h f j = absurd (omega arith)
AreFair-set_right (x ∷ xs) (y ∷ ys) zero b e h f zero = f
AreFair-set_right (x ∷ xs) (y ∷ ys) zero b e h f (suc j) = h (suc j)
AreFair-set_right (x ∷ xs) (y ∷ ys) (suc i) b e h f zero = h zero
AreFair-set_right (x ∷ xs) (y ∷ ys) (suc i) b e h f (suc j) =
    AreFair-set_right xs ys i b (omega arith) (λ k. h (suc k)) f j

pub IsFair-last : (a b : ℕ) → IsFair a b → b ≢ 0 → b - 1 ≡ 0 → IsFair 0 (b - 1)
unfolding IsFair
IsFair-last a b h n e = ground arith

pub IsFair-tick : (a b : ℕ) → IsFair a b → b ≢ 0 → b - 1 ≢ 0 → IsFair a (b - 1)
unfolding IsFair
IsFair-tick a b h n e = ground arith
