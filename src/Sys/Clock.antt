-- ===== src/Sys/Clock.antt =====
-- The clocks of i_sys.cpp over any number of ticks, and which blocks `ISYSCLEAR` clears.
use arachnopod.Base.{ℕ, zero, suc, ◌+◌, ◌%◌, ◌^◌, ◌≤◌, ◌&&◌, some, List}
use arachnopod.Base.{◌≡◌, refl, ◌∙◌, arith, ltb, leb, if◌then◌else◌}
use arachnopod.Base.{length, get_or, set, length-set, get_or-set_self, get_or-set_ne}
use arachnopod.Sys.{TickState, isysreset, isystep, clear_loop, isysclear}

pub ticks : ℕ → TickState
ticks zero = isysreset
ticks (suc n) = isystep (ticks n)

isystep_count : (s : TickState) (n : ℕ) → s.count ≡ n % 2 ^ 64 → (isystep s).count ≡ suc n % 2 ^ 64
unfolding isystep
isystep_count s n h = omega arith

isystep_clock :
    (s : TickState) (n : ℕ) → s.clock ≡ n % 255 + 1 → (isystep s).clock ≡ suc n % 255 + 1
unfolding isystep
isystep_clock s n h = ground arith

-- After `n + 1` ticks from reset the count is `n + 1`, wrapped to 64 bits, and the clock goes
-- round from 1 to 255: it is never 0 again.
pub ticks_lem :
    (n : ℕ) → ((ticks (suc n)).count ≡ suc n % 2 ^ 64) × ((ticks (suc n)).clock ≡ n % 255 + 1)
unfolding ticks isysreset
ticks_lem zero = (unfold isystep in refl, unfold isystep in refl)
ticks_lem (suc n) =
    let before = ticks_lem n in
    (isystep_count (ticks (suc n)) (suc n) before.0, isystep_clock (ticks (suc n)) n before.1)

length-clear_loop :
    (left i base : ℕ) (buf : List ℕ) → length (clear_loop left i base buf) ≡ length buf
unfolding clear_loop
length-clear_loop zero i base buf = refl
length-clear_loop (suc left) i base buf =
    length-clear_loop left (i + 1) base (set buf (base + i) 0) ∙ length-set buf (base + i) 0

clear_loop-get_or :
    (left i base : ℕ) (buf : List ℕ) (j : ℕ)
    → base + i + left ≤ length buf
    → get_or (clear_loop left i base buf) j 0
      ≡ (if leb (base + i) j && ltb j (base + i + left) then 0 else get_or buf j 0)
unfolding clear_loop
clear_loop-get_or zero i base buf j h = ground arith
clear_loop-get_or (suc left) i base buf j h = ground (
  arith,
  clear_loop-get_or left (i + 1) base (set buf (base + i) 0) j,
  length-set buf (base + i) 0,
  get_or-set_self buf (base + i) 0 0,
  get_or-set_ne buf (base + i) j 0 0,
)

-- `ISYSCLEAR` of a window inside the buffer clears the window and nothing else.
pub isysclear_lem :
    (buf : List ℕ) (base count : ℕ)
    → base + count ≤ length buf
    → (out : List ℕ) × (isysclear (some buf) base count ≡ some out)
      × (length out ≡ length buf)
      × ((j : ℕ)
          → get_or out j 0 ≡ (if leb base j && ltb j (base + count) then 0 else get_or buf j 0))
unfolding isysclear
isysclear_lem buf base count h = (
  clear_loop count 0 base buf,
  refl,
  length-clear_loop count 0 base buf,
  λ j. ground (arith, clear_loop-get_or count 0 base buf j),
)
