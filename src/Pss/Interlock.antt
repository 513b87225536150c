-- ===== src/Pss/Interlock.antt =====
-- `apply_power_commands` of pss/src/pss_support.cpp: no channel is on while the main power is off.
use arachnopod.Base.{ℕ, ◌<◌, true, false, none, some, if◌then◌else◌, pos}
use arachnopod.Base.{◌≡◌, ◌≢◌, refl, ◌∙◌, sym, ap, arith, inl, inr, Bool-cases}
use arachnopod.Tables.PssIds
use arachnopod.Ipar.Floats.{FloatOps}
use arachnopod.Isim.Values.{ok, isimi32}
use arachnopod.Isim.Access.{isimgeti32}
use arachnopod.Isim.Stored.{isimgeti32-bound, kept_value}
use arachnopod.Icmd.Command.{icmdact}
use arachnopod.Icmd.Exec.{apply_bool_pair}
use arachnopod.Icmd.Pair.{apply_bool_pair_lem}
use arachnopod.Pss.Commands.{
  PssState, apply_power_commands, follow_main_power, channels_off, is_power_on, i32_read,
  is_zero_i32,
}
use arachnopod.Pss.Power.{
  IsPss, IsPssStore, ChannelsOff, four_off, power_pair, power_pair-apply, power_pair-IsReady,
  power_pair-IsPair, switch_binding, switch_bound,
}

module _ {F : Type 0} (ops : FloatOps F) where
  -- What the power commands leave.
  pub record Powered (s after : PssState F) : Type 0 where
    pub on_done : icmdact after.ctx PssIds.cpsspwron ≡ false
    pub off_done : icmdact after.ctx PssIds.cpsspwroff ≡ false
    pub main : isimgeti32 ops PssIds.psspwr after.sim ≡ (
        if icmdact s.ctx PssIds.cpsspwroff
        then (ok, some (pos 0))
        else if icmdact s.ctx PssIds.cpsspwron
        then (ok, some (pos 1))
        else isimgeti32 ops PssIds.psspwr s.sim)
    pub off : is_power_on ops after.sim ≡ false → ChannelsOff ops after.sim
    pub on :
        is_power_on ops after.sim ≡ true
        → (j : ℕ) → j < 5
        → PssIds.psspwr ≢ j
        → isimgeti32 ops j after.sim ≡ isimgeti32 ops j s.sim

  module _ (s : PssState F) (h : IsPss ops s) where
    abbrev paired : PssState F
    paired = (apply_bool_pair ops none power_pair s).1

    paired_store : IsPssStore ops paired.sim
    paired_store =
        let (_, _, _, _, _, registry, cells, _) =
          apply_bool_pair_lem ops none power_pair (switch_binding 0) 0 s
            (power_pair-IsReady ops s h) (power_pair-IsPair ops s h) in
        record {
          registry = registry ∙ h.store.registry;
          cells = omega (arith, cells, h.store.cells);
        }

    paired_others : (j : ℕ) → j < 5 → 0 ≢ j → isimgeti32 ops j paired.sim ≡ isimgeti32 ops j s.sim
    paired_others j lt ne =
        let (_, _, _, _, others, _, _, _) =
          apply_bool_pair_lem ops none power_pair (switch_binding 0) 0 s
            (power_pair-IsReady ops s h) (power_pair-IsPair ops s h) in
        isimgeti32-bound ops paired.sim j j (switch_binding j)
          (switch_bound ops paired.sim j paired_store lt)
        ∙ ap (λ c. (ok, some (isimi32 ops c))) (others j ne)
        ∙ sym (
            isimgeti32-bound ops s.sim j j (switch_binding j) (switch_bound ops s.sim j h.store lt))

    paired-Powered :
        (after : PssState F)
        → after.ctx ≡ paired.ctx
        → isimgeti32 ops PssIds.psspwr after.sim ≡ isimgeti32 ops PssIds.psspwr paired.sim
        → (is_power_on ops after.sim ≡ false → ChannelsOff ops after.sim)
        → (is_power_on ops after.sim ≡ true → after ≡ paired)
        → Powered s after
    unfolding kept_value
    paired-Powered after ctx main off on =
        let (_, first, second, value, _, _, _, _) =
          apply_bool_pair_lem ops none power_pair (switch_binding 0) 0 s
            (power_pair-IsReady ops s h) (power_pair-IsPair ops s h) in
        record {
          on_done = rw ctx first;
          off_done = rw ctx second;
          main = main ∙ value;
          off = off;
          on = λ p j lt ne. ap (λ a. isimgeti32 ops j a.sim) (on p) ∙ paired_others j lt ne;
        }

    paired_off :
        is_zero_i32 ops (i32_read ops (isimgeti32 ops PssIds.psspwr paired.sim)) ≡ true
        → Powered s (follow_main_power ops paired)
    unfolding follow_main_power is_power_on
    paired_off e =
        let (off, same) = four_off ops paired.sim paired_store in
        let step : follow_main_power ops paired ≡ record (apply_bool_pair ops none power_pair s).1 {
          sim = channels_off ops paired.sim;
        } =
          simp e in
        rw step (
          paired-Powered
            (record (apply_bool_pair ops none power_pair s).1 { sim = channels_off ops paired.sim })
            refl same (λ p. off) (λ p. absurd (ground (arith, same, e, p))))

    paired_on :
        is_zero_i32 ops (i32_read ops (isimgeti32 ops PssIds.psspwr paired.sim)) ≡ false
        → Powered s (follow_main_power ops paired)
    unfolding follow_main_power is_power_on
    paired_on e =
        let step : follow_main_power ops paired ≡ paired = simp e in
        rw step (paired-Powered paired refl refl (λ p. absurd (ground (arith, e, p))) (λ p. refl))

    -- For a power system with its commands and variables in place, after the power commands: no
    -- power command is active; the main power is off if its "off" was active, else on if its "on"
    -- was, else as it was; if it is off, all four channels are off, and if it is on, they are as
    -- they were.
    pub apply_power_commands_lem : Powered s (apply_power_commands ops s)
    unfolding apply_power_commands
    apply_power_commands_lem =
        rw (power_pair-apply ops s)
          (elim (Bool-cases
            (is_zero_i32 ops (i32_read ops (isimgeti32 ops PssIds.psspwr paired.sim)))) [
              | inl e ↦ paired_off e
              | inr e ↦ paired_on e
            ])
