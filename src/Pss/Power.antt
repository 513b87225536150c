-- ===== src/Pss/Power.antt =====
-- The power commands of pss/src/pss_support.cpp: the main switch, and the four channels that follow it.
use arachnopod.Base.{ℕ, zero, suc, ◌≤◌, ◌<◌, none, some, List, ℤ, pos}
use arachnopod.Base.{◌≡◌, ◌≢◌, refl, ◌∙◌, sym, ap, arith, length}
use arachnopod.Tables.PssIds
use arachnopod.Tables.Commands.{base_comm_tab}
use arachnopod.Ipar.Context.{device}
use arachnopod.Ipar.Floats.{FloatOps}
use arachnopod.Isim.Values.{Binding, isimi32, u8_kind, binary, ok}
use arachnopod.Isim.Registry.{isimreg_build, isimkind, isimdomain, find_binding, lower_bound}
use arachnopod.Isim.Access.{SimStore, isimgeti32}
use arachnopod.Isim.Stored.{IsBound, Takes, set-Kept, kept_value, Kept, isimgeti32-bound}
use arachnopod.Icmd.Exec.{CmdBinding, bool_pair, call_status_hook, apply_bool, apply_bool_pair}
use arachnopod.Icmd.Cleared.{HasCommands}
use arachnopod.Icmd.Pair.{IsReady, IsPair}
use arachnopod.Model.PssTables.{pss_isim_params}
use arachnopod.Pss.Commands.{
  PssState, apply_i32_command, execute_power_command, channels_off, switch_off,
}

abbrev pub switch_binding : ℕ → Binding
switch_binding i = record { id = i; kind = u8_kind; domain = binary; ptr = some i }

-- The two commands of the main power, as a pair.
abbrev pub power_pair : CmdBinding
power_pair = record {
  mode = bool_pair;
  cmd_id = PssIds.cpsspwron;
  alt_cmd_id = PssIds.cpsspwroff;
  param_id = PssIds.psspwr;
}

find_switch :
    (i : ℕ) → i < 5 → find_binding (isimreg_build pss_isim_params) i ≡ some (switch_binding i)
unfolding find_binding lower_bound isimreg_build pss_isim_params isimkind isimdomain
find_switch zero lt = refl
find_switch (suc zero) lt = refl
find_switch (suc (suc zero)) lt = refl
find_switch (suc (suc (suc zero))) lt = refl
find_switch (suc (suc (suc (suc zero)))) lt = refl
find_switch (suc (suc (suc (suc (suc i))))) lt = absurd (omega arith)

module _ {F : Type 0} (ops : FloatOps F) where
  -- The variables of the power system, registered.
  pub record IsPssStore (sim : SimStore F) : Type 0 where
    pub registry : sim.registry ≡ some (isimreg_build pss_isim_params)
    pub cells : 31 ≤ length sim.cells

  pub switch_bound :
      (sim : SimStore F) (i : ℕ) → IsPssStore sim → i < 5 → IsBound ops sim i (switch_binding i) i
  switch_bound sim i h lt = record {
    bindings = isimreg_build pss_isim_params;
    registry = h.registry;
    found = find_switch i lt;
    points = refl;
    held = omega (arith, h.cells);
  }

  -- After a switch is set, the other switches read as before.
  kept_store :
      (sim : SimStore F) (i : ℕ) (v : ℤ) (k : Kept ops sim i i (switch_binding i) v)
      → IsPssStore sim
      → IsPssStore k.after
  kept_store sim i v k h = record {
    registry = k.same_registry ∙ h.registry;
    cells = omega (arith, h.cells, k.same_length);
  }

  pub switch_others :
      (sim : SimStore F) (i : ℕ) (v : ℤ) (k : Kept ops sim i i (switch_binding i) v)
      → IsPssStore sim
      → (j : ℕ) → j < 5
      → i ≢ j
      → isimgeti32 ops j k.after ≡ isimgeti32 ops j sim
  switch_others sim i v k h j lt ne =
      isimgeti32-bound ops k.after j j (switch_binding j)
        (switch_bound k.after j (kept_store sim i v k h) lt)
      ∙ ap (λ c. (ok, some (isimi32 ops c))) (k.others j ne)
      ∙ sym (isimgeti32-bound ops sim j j (switch_binding j) (switch_bound sim j h lt))

  -- Switching off the variable `i`.
  record Off (sim : SimStore F) (i : ℕ) (after : SimStore F) : Type 0 where
    store : IsPssStore after
    off : isimgeti32 ops i after ≡ (ok, some (pos 0))
    others : (j : ℕ) → j < 5 → i ≢ j → isimgeti32 ops j after ≡ isimgeti32 ops j sim

  switch-Takes : (i v : ℕ) → v < 256 → Takes (switch_binding i).kind (pos v)
  switch-Takes i v lt = ground arith

  switched : (sim : SimStore F) (i : ℕ) → IsPssStore sim → i < 5 → Off sim i (switch_off ops i sim)
  unfolding kept_value
  switched sim i h lt =
      let k =
        set-Kept ops sim i i (switch_binding i) (pos 0) (switch_bound sim i h lt)
          (switch-Takes i 0 (ground arith)) in
      let done : switch_off ops i sim ≡ k.after = ap (λ r. r.1) k.done in
      rw done (record {
        store = kept_store sim i (pos 0) k h;
        off = k.value;
        others = switch_others sim i (pos 0) k h;
      })

  -- The four channels, off.
  pub record ChannelsOff (after : SimStore F) : Type 0 where
    pub store : IsPssStore after
    pub off12 : isimgeti32 ops PssIds.psspwr12 after ≡ (ok, some (pos 0))
    pub off6 : isimgeti32 ops PssIds.psspwr6 after ≡ (ok, some (pos 0))
    pub off5 : isimgeti32 ops PssIds.psspwr5 after ≡ (ok, some (pos 0))
    pub off33 : isimgeti32 ops PssIds.psspwr33 after ≡ (ok, some (pos 0))

  pub four_off :
      (sim : SimStore F)
      → IsPssStore sim
      → ChannelsOff (channels_off ops sim)
        × (isimgeti32 ops PssIds.psspwr (channels_off ops sim) ≡ isimgeti32 ops PssIds.psspwr sim)
  four_off sim h =
      let a = switched sim 1 h (ground arith) in
      let b = switched (switch_off ops 1 sim) 2 a.store (ground arith) in
      let s2 = switch_off ops 2 (switch_off ops 1 sim) in
      let c = switched s2 3 b.store (ground arith) in
      let s3 = switch_off ops 3 s2 in
      let d = switched s3 4 c.store (ground arith) in
      (
        record {
          store = d.store;
          off12 =
              d.others 1 (ground arith) (ground arith)
              ∙ c.others 1 (ground arith) (ground arith)
              ∙ b.others 1 (ground arith) (ground arith)
              ∙ a.off;
          off6 =
              d.others 2 (ground arith) (ground arith)
              ∙ c.others 2 (ground arith) (ground arith)
              ∙ b.off;
          off5 = d.others 3 (ground arith) (ground arith) ∙ c.off;
          off33 = d.off;
        },
        d.others 0 (ground arith) (ground arith)
            ∙ c.others 0 (ground arith) (ground arith)
            ∙ b.others 0 (ground arith) (ground arith)
            ∙ a.others 0 (ground arith) (ground arith),
      )

  pub power_pair-apply :
      (s : PssState F)
      → execute_power_command ops PssIds.cpsspwroff (execute_power_command ops PssIds.cpsspwron s)
        ≡ (apply_bool_pair ops none power_pair s).1
  unfolding execute_power_command apply_i32_command apply_bool_pair apply_bool call_status_hook
  power_pair-apply s = refl

  -- The power system's commands and variables are in place.
  pub record IsPss (s : PssState F) : Type 0 where
    pub bs : List ℕ
    pub commands : HasCommands s.ctx bs
    pub role : s.ctx.role ≡ device
    pub store : IsPssStore s.sim

  pub power_pair-IsReady :
      (s : PssState F) → IsPss s → IsReady ops none power_pair (switch_binding 0) 0 s
  power_pair-IsReady s h = record {
    bs = h.bs;
    commands = h.commands;
    bound = switch_bound s.sim 0 h.store (ground arith);
  }

  pub power_pair-IsPair :
      (s : PssState F) → IsPss s → IsPair ops none power_pair (switch_binding 0) 0 s
  unfolding base_comm_tab
  power_pair-IsPair s h = record {
    distinct = ground arith;
    on_off = rw h.role refl;
    off_on = rw h.role refl;
    takes_on = switch-Takes 0 1 (ground arith);
    takes_off = switch-Takes 0 0 (ground arith);
  }
