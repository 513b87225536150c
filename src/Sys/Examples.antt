-- ===== src/Sys/Examples.antt =====
-- Concrete runs of i_sys.cpp.
use arachnopod.Base.{ℕ, ◌+◌, ◌^◌, ◌%◌, List, [], ◌∷◌, ◌≡◌}
use arachnopod.Sys.Clock.{ticks, ticks_lem}

abbrev four_blocks : List ℕ
four_blocks = 1 ∷ 2 ∷ 3 ∷ 4 ∷ []

ticks_lem_example : ((ticks 300).count ≡ 300 % 2 ^ 64) × ((ticks 300).clock ≡ 299 % 255 + 1)
ticks_lem_example = ticks_lem 299
