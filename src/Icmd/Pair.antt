-- ===== src/Icmd/Pair.antt =====
-- What a pair of commands, one that switches a variable on and one that switches it off, does.
use arachnopod.Base.{
  ℕ, Bool, true, false, ◌||◌, some, List, if◌then◌else◌, ℤ, pos, inl, inr, Bool-cases,
}
use arachnopod.Base.{◌≡◌, ◌≢◌, refl, ◌∙◌, sym, ap, get_or, length}
use arachnopod.Ipar.Context.{ParContext, comm_entry}
use arachnopod.Ipar.Floats.{FloatOps}
use arachnopod.Isim.Values.{Binding, ok}
use arachnopod.Isim.Access.{no_cell, isimgeti32}
use arachnopod.Isim.Stored.{kept_value, Takes, IsBound, set-Kept}
use arachnopod.Icmd.Command.{is_nonzero, read_command_raw, icmdact, icmdclear}
use arachnopod.Icmd.Exec.{CmdBinding, ExecState, StatusHook, apply_bool, apply_bool_pair}
use arachnopod.Icmd.Cleared.{HasCommands, shares, icmdclear_lem}

module _ {F U : Type 0} (ops : FloatOps F) (hook : StatusHook U) (c : CmdBinding) (b : Binding)
    (p : ℕ) where
  -- The state before: the message has its blocks, and the variable is `p` of the store.
  pub record IsReady (s : ExecState F U) : Type 0 where
    pub bs : List ℕ
    pub commands : HasCommands s.ctx bs
    pub bound : IsBound ops s.sim c.param_id b p

  -- The state after one command of the pair.
  record Half (s : ExecState F U) (id : ℕ) (v : ℤ) (o : Bool × ExecState F U) : Type 0 where
    flag : o.0 ≡ icmdact s.ctx id
    ready : IsReady o.1
    inactive : icmdact o.1.ctx id ≡ false
    role : o.1.ctx.role ≡ s.ctx.role
    others :
        (j : ℕ)
        → id ≢ j
        → shares s.ctx.role (comm_entry id) (comm_entry j) ≡ true
        → icmdact o.1.ctx j ≡ icmdact s.ctx j
    value : isimgeti32 ops c.param_id o.1.sim ≡ (
        if icmdact s.ctx id
        then (ok, some (kept_value b.kind b.domain v))
        else isimgeti32 ops c.param_id s.sim)
    variables : (q : ℕ) → p ≢ q → get_or o.1.sim.cells q no_cell ≡ get_or s.sim.cells q no_cell
    registry : o.1.sim.registry ≡ s.sim.registry
    cells : length o.1.sim.cells ≡ length s.sim.cells
    user : o.1.user ≡ s.user

  act_is :
      (ctx ctx' : ParContext) (j : ℕ)
      → read_command_raw ctx' j ≡ read_command_raw ctx j
      → icmdact ctx' j ≡ icmdact ctx j
  unfolding icmdact
  act_is ctx ctx' j e = ap is_nonzero e

  idle :
      (s : ExecState F U) (id : ℕ) (v : ℤ)
      → IsReady s
      → icmdact s.ctx id ≡ false
      → Half s id v (apply_bool ops hook c id v s)
  unfolding apply_bool
  idle s id v r e =
      let same : apply_bool ops hook c id v s ≡ (false, s) = simp e in
      rw same (record {
        flag = sym e;
        ready = r;
        inactive = e;
        role = refl;
        others = λ j ne sh. refl;
        value = simp e;
        variables = λ q ne. refl;
        registry = refl;
        cells = refl;
        user = refl;
      })

  active :
      (s : ExecState F U) (id : ℕ) (v : ℤ)
      → IsReady s
      → Takes b.kind v
      → icmdact s.ctx id ≡ true
      → Half s id v (apply_bool ops hook c id v s)
  unfolding apply_bool
  active s id v r t e =
      let k = set-Kept ops s.sim c.param_id p b v r.bound t in
      let cl = icmdclear_lem s.ctx id r.bs r.commands in
      let step : apply_bool ops hook c id v s
          ≡ (true, record s { ctx = icmdclear s.ctx id; sim = k.after }) =
        simp (e, k.done) in
      rw step (record {
        flag = sym e;
        ready = record { bs = cl.bs'; commands = cl.commands; bound = k.bound };
        inactive = cl.inactive;
        role = ap (λ x. x.role) cl.cleared;
        others = λ j ne sh. act_is s.ctx (icmdclear s.ctx id) j (cl.others j ne sh);
        value = rw e k.value;
        variables = k.others;
        registry = k.same_registry;
        cells = k.same_length;
        user = refl;
      })

  half :
      (s : ExecState F U) (id : ℕ) (v : ℤ)
      → IsReady s
      → Takes b.kind v
      → Half s id v (apply_bool ops hook c id v s)
  half s id v r t = elim (Bool-cases (icmdact s.ctx id)) [
    | inl e ↦ active s id v r t e
    | inr e ↦ idle s id v r e
  ]

  -- Two commands of one message, and a variable of an integer kind.
  pub record IsPair (s : ExecState F U) : Type 0 where
    pub distinct : c.cmd_id ≢ c.alt_cmd_id
    pub on_off : shares s.ctx.role (comm_entry c.cmd_id) (comm_entry c.alt_cmd_id) ≡ true
    pub off_on : shares s.ctx.role (comm_entry c.alt_cmd_id) (comm_entry c.cmd_id) ≡ true
    pub takes_on : Takes b.kind (pos 1)
    pub takes_off : Takes b.kind (pos 0)

  -- A pair of distinct commands of one message, executed on a variable of an integer kind that is
  -- bound and held in the store: neither command is active afterwards; the variable is off if the second
  -- command was active, else on if the first was, else as it was; the result tells whether one was
  -- active; no other variable changes, nor the registry, and nothing is reported.
  pub apply_bool_pair_lem :
      (s : ExecState F U)
      → IsReady s
      → IsPair s
      → let (changed, after) = apply_bool_pair ops hook c s in
        (changed ≡ (icmdact s.ctx c.cmd_id || icmdact s.ctx c.alt_cmd_id))
        × (icmdact after.ctx c.cmd_id ≡ false)
        × (icmdact after.ctx c.alt_cmd_id ≡ false)
        × (isimgeti32 ops c.param_id after.sim ≡ (
            if icmdact s.ctx c.alt_cmd_id
            then (ok, some (kept_value b.kind b.domain (pos 0)))
            else if icmdact s.ctx c.cmd_id
            then (ok, some (kept_value b.kind b.domain (pos 1)))
            else isimgeti32 ops c.param_id s.sim))
        × ((q : ℕ) → p ≢ q → get_or after.sim.cells q no_cell ≡ get_or s.sim.cells q no_cell)
        × (after.sim.registry ≡ s.sim.registry)
        × (length after.sim.cells ≡ length s.sim.cells)
        × (after.user ≡ s.user)
  unfolding apply_bool_pair
  apply_bool_pair_lem s r h =
      let on = half s c.cmd_id (pos 1) r h.takes_on in
      let s1 = (apply_bool ops hook c c.cmd_id (pos 1) s).1 in
      let off = half s1 c.alt_cmd_id (pos 0) on.ready h.takes_off in
      let alt = on.others c.alt_cmd_id h.distinct h.on_off in
      let shared : shares s1.ctx.role (comm_entry c.alt_cmd_id) (comm_entry c.cmd_id) ≡ true =
        rw on.role h.off_on in
      (
        rw (on.flag, off.flag, alt) refl,
        off.others c.cmd_id (λ e. h.distinct (sym e)) shared ∙ on.inactive,
        off.inactive,
        rw (off.value, alt, on.value) refl,
        λ q ne. off.variables q ne ∙ on.variables q ne,
        off.registry ∙ on.registry,
        off.cells ∙ on.cells,
        off.user ∙ on.user,
      )
