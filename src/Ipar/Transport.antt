-- ===== src/Ipar/Transport.antt =====
-- An integer that goes from one system to another in the messages, by i_par.cpp: a parameter from
-- a device to CS, and a command from CS to a device.
use arachnopod.Base.{ℕ, ◌≤◌, ◌<◌, true, false, some, List}
use arachnopod.Base.{◌≡◌, ◌∙◌, ap, arith, ltb, ◌==◌, length, get_or, ℤ, pos}
use arachnopod.MsgBlock.{layout_supported, read_value}
use arachnopod.MsgBlock.Values.{IsBlocks, read_value-write_value}
use arachnopod.Tables.Config.{alg_an, type_sign, param_max, param_comm_max}
use arachnopod.Tables.Entry.{Entry, type_width_bits}
use arachnopod.Ipar.Codes.{InRange, encode_to_bits, decode-encode}
use arachnopod.Ipar.Context.{
  cs, device, ok, ParContext, param_entry, comm_entry, is_system_mismatch, item, set_write_buf,
  write_buf, read_buf,
}
use arachnopod.Ipar.Floats.{FloatOps, IsExact}
use arachnopod.Ipar.Access.{imsgget, imsgset, get_resolved, set_resolved}
use arachnopod.Ipar.RoundTrip.{item_of, IsWidth-layout, stored-lt, set_int, get_int}
use arachnopod.Ipar.Places.{
  param-supported, comm-supported, generate-device, parse-cs, generate-cs, parse-device,
  write-device, write-cs,
}

-- A block of one message that is a copy of a block of another has the same fields.
read_value_copy :
    (bs cbs : List ℕ) (count count' n n' o w raw : ℕ)
    → n < count
    → n' < count'
    → get_or cbs n' 0 ≡ get_or bs n 0
    → read_value (some bs) count n o w ≡ some raw
    → read_value (some cbs) count' n' o w ≡ some raw
unfolding read_value
read_value_copy bs cbs count count' n n' o w raw lt lt' same h = ground arith

-- The row `e` has an integer without calibration, and `z` fits in it.
pub record Fits (e : Entry) (z : ℤ) : Type 0 where
  pub plain : e.alg ≡ alg_an
  pub fits : InRange (type_width_bits e.type) (e.sign == type_sign) z

module _ {F : Type 0} (ops : FloatOps F) (exact : IsExact ops) where
  -- What the writer and the reader of the row `e`, at block `n` of the one and `n'` of the other,
  -- make of the integer `z`.
  pass_int :
      (from to : ParContext) (e : Entry) (count count' n n' : ℕ) (bs : List ℕ) (z : ℤ)
      → Fits e z
      → layout_supported (type_width_bits e.type) (pos e.msg_block_offset) ≡ true
      → write_buf from ≡ some bs
      → IsBlocks bs
      → count ≤ length bs
      → n < count
      → n' < count'
      → (bs' : List ℕ) × (set_resolved ops from (ops.of_int z) (item (item_of count n e))
          ≡ (ok, set_write_buf (some bs') from))
        × ((cbs : List ℕ)
            → read_buf to ≡ some cbs
            → get_or cbs n' 0 ≡ get_or bs' n 0
            → get_resolved ops to (item (item_of count' n' e)) ≡ (ok, ops.of_int z))
  pass_int from to e count count' n n' bs z f s b hb hc lt lt' =
      let w = type_width_bits e.type in
      let o = e.msg_block_offset in
      let width = IsWidth-layout w o s in
      let raw = encode_to_bits z w in
      let code = decode-encode w (e.sign == type_sign) z width f.fits in
      let (bs', written, done) =
        set_int ops exact from (item_of count n e) bs z b width f.plain f.fits s lt in
      (
        bs',
        done,
        λ cbs c same. get_int ops exact to (item_of count' n' e) z width f.plain f.fits (
            rw c (
              read_value_copy bs' cbs count count' n n' o w raw lt lt' same (
                read_value-write_value bs count n o w raw hb hc written
                ∙ ap some (stored-lt w raw width code.1)))),
      )

-- A device that has its parameters in `bs` and CS, which keeps those of all systems: both have room
-- for the parameter `id`, in which the integer `z` fits.
pub record PassesParam (dev host : ParContext) (id : ℕ) (bs : List ℕ) (z : ℤ) : Type 0 where
  pub from_device : dev.role ≡ device
  pub to_cs : host.role ≡ cs
  pub known : id < param_max
  pub own : is_system_mismatch dev (param_entry id).sys_id ≡ false
  pub fits : Fits (param_entry id) z
  pub buffer : dev.msg_prm ≡ some bs
  pub words : IsBlocks bs
  pub counted : dev.msg_prm_blocks ≤ length bs
  pub room : (param_entry id).msg_block_n < dev.msg_prm_blocks
  pub host_room : (param_entry id).msg_cs_block_n < host.msg_prm_blocks

-- CS, which keeps the commands of all systems, those in `bs`, and the device that the command `id`
-- is for: both have room for it, and the integer `z` fits in it.
pub record PassesCommand (host dev : ParContext) (id : ℕ) (bs : List ℕ) (z : ℤ) : Type 0 where
  pub from_cs : host.role ≡ cs
  pub to_device : dev.role ≡ device
  pub above : param_max ≤ id
  pub known : id < param_comm_max
  pub own : is_system_mismatch dev (comm_entry id).sys_id ≡ false
  pub fits : Fits (comm_entry id) z
  pub buffer : host.msg_cmd ≡ some bs
  pub words : IsBlocks bs
  pub counted : host.msg_cmd_blocks ≤ length bs
  pub room : (comm_entry id).msg_cs_block_n < host.msg_cmd_blocks
  pub device_room : (comm_entry id).msg_block_n < dev.msg_cmd_blocks

module _ {F : Type 0} (ops : FloatOps F) (exact : IsExact ops) where
  -- Over any floating point arithmetic that is exact on 16-bit integers: a device that sets one of
  -- its parameters without calibration to an integer that fits is told `ok`, and changes nothing
  -- but its message; and CS reads that integer, from any message in which the parameter's block is
  -- a copy of the device's.
  pub param_passes :
      (dev host : ParContext) (id : ℕ) (bs : List ℕ) (z : ℤ)
      → PassesParam dev host id bs z
      → (bs' : List ℕ) × (imsgset ops dev id (ops.of_int z)
          ≡ (ok, record dev { msg_prm = some bs' }))
        × ((cbs : List ℕ)
            → host.msg_prm ≡ some cbs
            → get_or cbs (param_entry id).msg_cs_block_n 0
              ≡ get_or bs' (param_entry id).msg_block_n 0
            → imsgget ops host id ≡ (ok, ops.of_int z))
  unfolding imsgset imsgget
  param_passes dev host id bs z p =
      let inside : ltb id param_max ≡ true = ground (arith, p.known) in
      let e = param_entry id in
      let (g, b) = generate-device dev id bs p.from_device p.known p.own p.buffer p.room in
      let (bs', done, read) =
        pass_int ops exact dev host e dev.msg_prm_blocks host.msg_prm_blocks e.msg_block_n
          e.msg_cs_block_n bs z p.fits (param-supported id p.known) b p.words p.counted p.room
          p.host_room in
      (
        bs',
        simp (inside, g) (done ∙ ap (λ c. (ok, c)) (write-device dev (some bs') p.from_device)),
        λ cbs c same.
            let (h, r) = parse-cs host id cbs p.to_cs p.known c p.host_room in
            simp (inside, h) (read cbs r same),
      )

  -- Over any floating point arithmetic that is exact on 16-bit integers: if CS sets a command
  -- without calibration to an integer that fits, it is told `ok`, and changes nothing but its
  -- commands; and the device that the command is for reads that integer, from any message in which
  -- the command's block is a copy of CS's.
  pub command_passes :
      (host dev : ParContext) (id : ℕ) (bs : List ℕ) (z : ℤ)
      → PassesCommand host dev id bs z
      → (bs' : List ℕ) × (imsgset ops host id (ops.of_int z)
          ≡ (ok, record host { msg_cmd = some bs' }))
        × ((dbs : List ℕ)
            → dev.msg_cmd ≡ some dbs
            → get_or dbs (comm_entry id).msg_block_n 0 ≡ get_or bs' (comm_entry id).msg_cs_block_n 0
            → imsgget ops dev id ≡ (ok, ops.of_int z))
  unfolding imsgset imsgget
  command_passes host dev id bs z p =
      let above : ltb id param_max ≡ false = ground (arith, p.above) in
      let below : ltb id param_comm_max ≡ true = ground (arith, p.known) in
      let e = comm_entry id in
      let (g, b) = generate-cs host id bs p.from_cs p.above p.known p.buffer p.room in
      let (bs', done, read) =
        pass_int ops exact host dev e host.msg_cmd_blocks dev.msg_cmd_blocks e.msg_cs_block_n
          e.msg_block_n bs z p.fits (comm-supported id p.above p.known) b p.words p.counted p.room
          p.device_room in
      (
        bs',
        simp (above, below, g) (done ∙ ap (λ c. (ok, c)) (write-cs host (some bs') p.from_cs)),
        λ dbs c same.
            let (h, r) =
              parse-device dev id dbs p.to_device p.above p.known p.own c p.device_room in
            simp (above, below, h) (read dbs r same),
      )
