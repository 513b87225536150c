-- ===== src/OperatingMode/Backoff.antt =====
-- When cs_operating_mode.cpp polls a target that has failed: the failures, the cooldown that they
-- start, its end, and the policy that the nodes are given.
use arachnopod.Base.{◌≡◌}
use arachnopod.OperatingMode.{ModeState}

-- The choices of the operator are the same.
SameChoices : ModeState → ModeState → Type 0
SameChoices s s' = (s'.background_enabled ≡ s.background_enabled) × (s'.focus ≡ s.focus)
