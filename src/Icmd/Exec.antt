-- ===== src/Icmd/Exec.antt =====
-- sub/src/i_cmd_exec.cpp: the commands of a message executed on the variables of the simulation.
use arachnopod.Base.{
  ℕ, ◌+◌, Bool, true, false, ◌||◌, Option, none, some, List, [], ◌∷◌, ℤ, pos, if◌then◌else◌,
}
use arachnopod.Ipar.Context.{ParContext}
use arachnopod.Ipar.Floats.{FloatOps}
use arachnopod.Isim.Values.{IsimStatus, ok, f32_zero}
use arachnopod.Isim.Access.{SimStore, isimseti32, isimsetf32}
use arachnopod.Icmd.Command.{icmdact, icmdclear, icmdf32}

-- `mode_t`
pub data ExecMode : Type 0 where
  bool_pair nonzero_value : ExecMode

-- `binding_t` of i_cmd_exec.hpp
pub record CmdBinding : Type 0 where
  pub mode : ExecMode
  pub cmd_id : ℕ
  pub alt_cmd_id : ℕ
  pub param_id : ℕ

-- What the executor changes: the context's messages, the bound variables and the hook's user data.
pub record ExecState (F U : Type 0) : Type 0 where
  pub ctx : ParContext
  pub sim : SimStore F
  pub user : U

-- `status_hook_t` on the user data; the hook is not code of the repository.
abbrev pub StatusHook : Type 0 → Type 0
StatusHook U = Option (U → CmdBinding → IsimStatus → U)

abbrev pub is_ok : IsimStatus → Bool
is_ok ok = true
is_ok _ = false

module _ {F U : Type 0} (ops : FloatOps F) (status_hook : StatusHook U) where
  abbrev pub hooked : StatusHook U → U → CmdBinding → IsimStatus → U
  hooked none user binding status = user
  hooked (some f) user binding status = f user binding status

  unfoldable pub call_status_hook : CmdBinding → IsimStatus → ExecState F U → ExecState F U
  call_status_hook binding status s = record s { user = hooked status_hook s.user binding status }

  -- After a set with this status: the command is cleared, or the failure reported.
  abbrev pub after_set :
      CmdBinding → ℕ → ExecState F U → IsimStatus × SimStore F → Bool × ExecState F U
  after_set binding id s (status, sim) =
      if is_ok status
      then (true, record s { ctx = icmdclear s.ctx id; sim = sim })
      else (false, call_status_hook binding status (record s { sim = sim }))

  -- One half of `apply_bool_pair`: the flag says whether the state changed.
  unfoldable pub apply_bool : CmdBinding → ℕ → ℤ → ExecState F U → Bool × ExecState F U
  apply_bool binding id value s =
      if icmdact s.ctx id
      then after_set binding id s (isimseti32 ops binding.param_id value s.sim)
      else (false, s)

  unfoldable pub apply_bool_pair : CmdBinding → ExecState F U → Bool × ExecState F U
  apply_bool_pair binding s =
      let on = apply_bool binding binding.cmd_id (pos 1) s in
      let off = apply_bool binding binding.alt_cmd_id (pos 0) on.1 in (on.0 || off.0, off.1)

  unfoldable pub apply_nonzero_value : CmdBinding → ExecState F U → Bool × ExecState F U
  apply_nonzero_value binding s =
      if icmdact s.ctx binding.cmd_id
      then after_set binding binding.cmd_id s
          (isimsetf32 ops binding.param_id (icmdf32 ops s.ctx binding.cmd_id (f32_zero ops)) s.sim)
      else (false, s)

  abbrev pub apply_mode : ExecMode → CmdBinding → ExecState F U → Bool × ExecState F U
  apply_mode bool_pair binding s = apply_bool_pair binding s
  apply_mode nonzero_value binding s = apply_nonzero_value binding s

  unfoldable pub apply : CmdBinding → ExecState F U → Bool × ExecState F U
  apply binding s = apply_mode binding.mode binding s

  -- The number of bindings that changed the state; no bindings are the empty list.
  unfoldable pub apply_all : List CmdBinding → ExecState F U → ℕ × ExecState F U
  apply_all [] s = (0, s)
  apply_all (binding ∷ bindings) s =
      let one = apply binding s in
      let rest = apply_all bindings one.1 in ((if one.0 then 1 else 0) + rest.0, rest.1)
