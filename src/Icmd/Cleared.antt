-- ===== src/Icmd/Cleared.antt =====
-- What `ICMDCLEAR` does to the commands of a message.
use arachnopod.Base.{ℕ, ◌+◌, ◌-◌, ◌≤◌, ◌<◌, Bool, true, false, ◌||◌, not, none, some, List}
use arachnopod.Base.{
  ◌⊎◌, inl, inr, Bool-cases, ◌≡◌, ◌≢◌, refl, ◌∙◌, ap, arith, ltb, ◌==◌, length, if◌then◌else◌,
}
use arachnopod.MsgBlock.{read_value, write_value}
use arachnopod.MsgBlock.Fields.{stored}
use arachnopod.MsgBlock.Values.{
  IsBlocks, read_value_accepts, write_value_accepts, write_value_done, write_value-IsBlocks,
  read_value-write_value, read_value-write_value_apart,
}
use arachnopod.Tables.Config.{param_max, param_comm_max}
use arachnopod.Tables.Entry.{Entry, type_width_bits}
use arachnopod.Tables.Rows.{
  width, own_block, cs_block, same_system, any_system, apart, apart_pairs-get_or,
}
use arachnopod.Tables.Commands.{base_comm_tab}
use arachnopod.Tables.Layout.{comm_apart, comm_own_apart, length-base_comm_tab}
use arachnopod.Ipar.Context.{Role, cs, device, ParContext, comm_entry}
use arachnopod.Icmd.Command.{block_n_as, is_nonzero, read_command_raw, icmdact, icmdclear}

-- A field that was overwritten by 0, if that was accepted: `bs'` is the blocks after it.
record Overwritten (bs : List ℕ) (count n o w : ℕ) : Type 0 where
  bs' : List ℕ
  written : (write_value (some bs) count n o w 0).1 ≡ some bs'
  words : IsBlocks bs'
  same_length : length bs' ≡ length bs
  inactive : is_nonzero (read_value (some bs') count n o w) ≡ false
  others :
      (n' o' w' : ℕ)
      → (n ≢ n') ⊎ ((o + w ≤ o') ⊎ (o' + w' ≤ o))
      → read_value (some bs') count n' o' w' ≡ read_value (some bs) count n' o' w'

stored_zero : (w : ℕ) → is_nonzero (some (stored w 0)) ≡ false
stored_zero w = ground arith

refused_read :
    (bs : List ℕ) (count n o w : ℕ)
    → (write_value (some bs) count n o w 0).0 ≡ false
    → is_nonzero (read_value (some bs) count n o w) ≡ false
refused_read bs count n o w h =
    ground (arith, read_value_accepts bs count n o w, write_value_accepts bs count n o w 0)

overwrite :
    (bs : List ℕ) (count n o w : ℕ) → IsBlocks bs → count ≤ length bs → Overwritten bs count n o w
overwrite bs count n o w hb hc = elim (Bool-cases (write_value (some bs) count n o w 0).0) [
  | inl e ↦
      let (bs', done) = write_value_done bs count n o w 0 e in
      let (words, same) = write_value-IsBlocks bs count n o w 0 hb done in
      record {
        bs' = bs';
        written = ap (λ r. r.1) done;
        words = words;
        same_length = same;
        inactive = rw (read_value-write_value bs count n o w 0 hb hc done) (stored_zero w);
        others = λ n' o' w' a. read_value-write_value_apart bs count n o w 0 n' o' w' hb hc a done;
      }
  | inr e ↦ record {
    bs' = bs;
    written = (write_value_accepts bs count n o w 0).1 e;
    words = hb;
    same_length = refl;
    inactive = refused_read bs count n o w e;
    others = λ n' o' w' a. refl;
  }
]

-- The commands that share a message with those of `e`: all of them in the image of CS, and those of
-- the same system in a device's message.
abbrev pub shares : Role → Entry → Entry → Bool
shares cs e f = any_system e f
shares device e f = same_system e f

places_apart :
    (role : Role) (id j : ℕ)
    → param_max ≤ id
    → id < param_comm_max
    → param_max ≤ j
    → j < param_comm_max
    → id ≢ j
    → shares role (comm_entry id) (comm_entry j) ≡ true
    → (block_n_as role (comm_entry id) ≢ block_n_as role (comm_entry j))
      ⊎ (((comm_entry id).msg_block_offset + width (comm_entry id)
            ≤ (comm_entry j).msg_block_offset)
          ⊎ ((comm_entry j).msg_block_offset + width (comm_entry j)
              ≤ (comm_entry id).msg_block_offset))
unfolding apart
places_apart cs id j g l g' l' ne s =
    let a =
      apart_pairs-get_or cs_block any_system base_comm_tab (id - param_max) (j - param_max)
        comm_apart (omega (arith, length-base_comm_tab)) (omega (arith, length-base_comm_tab))
        (λ e. ne (omega arith)) in
    ground arith
places_apart device id j g l g' l' ne s =
    let a =
      apart_pairs-get_or own_block same_system base_comm_tab (id - param_max) (j - param_max)
        comm_own_apart (omega (arith, length-base_comm_tab)) (omega (arith, length-base_comm_tab))
        (λ e. ne (omega arith)) in
    ground arith

-- The context has an array of at least as many 16-bit words as it counts command blocks.
pub record HasCommands (ctx : ParContext) (bs : List ℕ) : Type 0 where
  pub buffer : ctx.msg_cmd ≡ some bs
  pub words : IsBlocks bs
  pub counted : ctx.msg_cmd_blocks ≤ length bs

-- What `ICMDCLEAR` leaves: the blocks `bs'`.
pub record Cleared (ctx : ParContext) (id : ℕ) : Type 0 where
  pub bs' : List ℕ
  pub cleared : icmdclear ctx id ≡ record ctx { msg_cmd = some bs' }
  pub commands : HasCommands (icmdclear ctx id) bs'
  pub inactive : icmdact (icmdclear ctx id) id ≡ false
  pub others :
      (j : ℕ)
      → id ≢ j
      → shares ctx.role (comm_entry id) (comm_entry j) ≡ true
      → read_command_raw (icmdclear ctx id) j ≡ read_command_raw ctx j

module _ (ctx : ParContext) (id : ℕ) (bs : List ℕ) (h : HasCommands ctx bs) where
  abbrev count : ℕ
  count = ctx.msg_cmd_blocks

  abbrev block : ℕ
  block = block_n_as ctx.role (comm_entry id)

  abbrev offset : ℕ
  offset = (comm_entry id).msg_block_offset

  abbrev w : ℕ
  w = type_width_bits (comm_entry id).type

  -- An identifier that has no field in the messages.
  no_field : (ltb id param_max || not (ltb id param_comm_max)) || (w == 0) ≡ true → Cleared ctx id
  unfolding icmdclear icmdact read_command_raw
  no_field e =
      let same : icmdclear ctx id ≡ ctx = ground arith in
      record {
        bs' = bs;
        cleared = same ∙ ap (λ b. record ctx { msg_cmd = b }) h.buffer;
        commands = rw same h;
        inactive = ground arith;
        others = λ j ne s. ap (λ c. read_command_raw c j) same;
      }

  read_in :
      (j : ℕ) (blocks : List ℕ)
      → read_command_raw (record ctx { msg_cmd = some blocks }) j ≡ (
          if ltb j param_max || not (ltb j param_comm_max)
          then none
          else if type_width_bits (comm_entry j).type == 0
          then none
          else read_value
              (some blocks)
              count
              (block_n_as ctx.role (comm_entry j))
              (comm_entry j).msg_block_offset
              (type_width_bits (comm_entry j).type))
  unfolding read_command_raw
  read_in j blocks = refl

  field_cleared :
      param_max ≤ id
      → id < param_comm_max
      → w ≢ 0
      → icmdclear ctx id ≡ record ctx { msg_cmd = (write_value (some bs) count block offset w 0).1 }
  unfolding icmdclear
  field_cleared g l wide =
      let above : ltb id param_max ≡ false = ground arith in
      let below : ltb id param_comm_max ≡ true = ground arith in
      let has : (w == 0) ≡ false = ground arith in simp (h.buffer, above, below, has)

  field : param_max ≤ id → id < param_comm_max → w ≢ 0 → Cleared ctx id
  unfolding icmdact
  field g l wide =
      let o = overwrite bs count block offset w h.words h.counted in
      let cleared = field_cleared g l wide ∙ ap (λ b. record ctx { msg_cmd = b }) o.written in
      record {
        bs' = o.bs';
        cleared = cleared;
        commands = rw cleared (record {
          buffer = refl;
          words = o.words;
          counted = omega (arith, h.counted, o.same_length);
        });
        inactive = rw (cleared, read_in id o.bs') (ground (arith, o.inactive));
        others = λ j ne s.
            let there : read_command_raw ctx j
                ≡ read_command_raw (record ctx { msg_cmd = some bs }) j =
              ap (λ b. read_command_raw (record ctx { msg_cmd = b }) j) h.buffer in
            let a =
              o.others (block_n_as ctx.role (comm_entry j)) (comm_entry j).msg_block_offset
                (type_width_bits (comm_entry j).type) in
            rw (cleared, there, read_in j o.bs', read_in j bs)
              (ground (arith, a, places_apart ctx.role id j g l));
      }

  -- In a context with an array of at least as many 16-bit words as it counts command blocks:
  -- clearing a command changes only these words, which stay 16-bit words in their number; the
  -- command is not active then; and every other command that lies in the message reads as before.
  pub icmdclear_lem : Cleared ctx id
  icmdclear_lem =
      elim (Bool-cases ((ltb id param_max || not (ltb id param_comm_max)) || (w == 0))) [
        | inl e ↦ no_field e
        | inr e ↦ field (ground arith) (ground arith) (ground arith)
      ]
