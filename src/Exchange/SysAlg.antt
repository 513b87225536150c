-- ===== src/Exchange/SysAlg.antt =====
-- ISYS_EXPORT_MODEL_PARAMS, ISYSALG and ISYSBASEALG of sub/src/i_sys_algo.cpp: the tick of a system.
use arachnopod.Base.{ℕ, zero, suc, ◌+◌, Bool, Option, none, some, u16, if◌then◌else◌, not}
use arachnopod.Sys.{TickState, isystep}
use arachnopod.Ipar.Context.{ParContext}
use arachnopod.Ipar.Floats.{FloatOps}
use arachnopod.Ipar.Access.{imsgset}
use arachnopod.Isim.Values.{SimValue, IsimStatus, isimf32}
use arachnopod.Isim.Access.{SimStore, isimget}
use arachnopod.Exchange.State.{BusHooks, World}
use arachnopod.Exchange.Run.{ibus_exchange}

-- `model_export_override_fn` on its user data: `none` is the `false` of the source.
abbrev pub ExportOverride : Type 0 → Type 0 → Type 0
ExportOverride F U = Option (U → ℕ → U × Option F)

module _ {F U : Type 0} (ops : FloatOps F) (override_fn : ExportOverride F U)
    (sim : SimStore F) where
  abbrev pub overridden : ExportOverride F U → U → ℕ → U × Option F
  overridden none user id = (user, none)
  overridden (some f) user id = f user id

  abbrev pub exported : IsimStatus × Option (SimValue F) → Option F
  exported (status, none) = none
  exported (status, some v) = some (isimf32 ops v)

  -- The value for the message, or `none` where the source goes on to the next parameter.
  abbrev pub export_value : Option F → ℕ → Option F
  export_value (some value) id = some value
  export_value none id = exported (isimget ops id sim)

  abbrev pub put_export : ParContext → ℕ → Option F → ParContext
  put_export ctx id none = ctx
  put_export ctx id (some value) = (imsgset ops ctx id value).1

  -- The loop of `ISYS_EXPORT_MODEL_PARAMS`: the rounds left, and the identifier of the round.
  unfoldable pub isys_export_model_params : ℕ → ℕ → U × ParContext → U × ParContext
  isys_export_model_params zero id (user, ctx) = (user, ctx)
  isys_export_model_params (suc left) id (user, ctx) =
      let (user', value) = overridden override_fn user id in
      isys_export_model_params left (u16 (id + 1))
        (user', put_export ctx id (export_value value id))

-- What the tick of a system reads and changes: its clock, its side of the bus, and through the
-- `user` of the world the rest of the system's state.
pub record Tick (U : Type 0) : Type 0 where
  pub tick : TickState
  pub world : World U

-- A hook without arguments reaches the state of its system.
abbrev pub SysHook : Type 0 → Type 0
SysHook U = Option (Tick U → Tick U)

abbrev pub call_hook : {U : Type 0} → SysHook U → Tick U → Tick U
call_hook none s = s
call_hook (some fn) s = fn s

-- `sysalg_hooks_t`
pub record SysalgHooks (U : Type 0) : Type 0 where
  pub icmdupd : SysHook U
  pub localsysalg : SysHook U
  pub isysnodes : SysHook U
  pub iprmupd : SysHook U

-- `base_hooks_t`
pub record SysBaseHooks (U : Type 0) : Type 0 where
  pub isysalg : SysalgHooks U
  pub ibusexchange : Option (BusHooks U → Tick U → Tick U)
  pub iexchangectrl : SysHook U
  pub icmdpwrupd : SysHook U
  pub ilog : SysHook U

unfoldable pub isysalg : {U : Type 0} → SysalgHooks U → Tick U → Tick U
isysalg hooks s =
    call_hook hooks.iprmupd
      (call_hook hooks.isysnodes (call_hook hooks.localsysalg (call_hook hooks.icmdupd s)))

abbrev pub bus_exchange :
    {U : Type 0} → Option (BusHooks U → Tick U → Tick U) → BusHooks U → Tick U → Tick U
bus_exchange none hooks s = record s { world = ibus_exchange hooks s.world }
bus_exchange (some fn) hooks s = fn hooks s

unfoldable pub isysbasealg : {U : Type 0} → Bool → BusHooks U → SysBaseHooks U → Tick U → Tick U
isysbasealg power_on bus_hooks hooks s =
    let stepped = record s { tick = isystep s.tick } in
    let worked = if power_on then isysalg hooks.isysalg stepped else stepped in
    let controlled =
      if not worked.world.state.exchange_busy
      then call_hook hooks.iexchangectrl worked
      else worked in
    call_hook hooks.ilog
      (call_hook hooks.icmdpwrupd (bus_exchange hooks.ibusexchange bus_hooks controlled))
