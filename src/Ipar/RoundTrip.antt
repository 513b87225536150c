-- ===== src/Ipar/RoundTrip.antt =====
-- A value that one system sets with IMSGSET of i_par.cpp and the other reads with IMSGGET.
use arachnopod.Base.{ℕ, ◌^◌, ◌≤◌, ◌<◌, Bool, true, false, some, List, [], ◌∷◌}
use arachnopod.Base.{◌≡◌, refl, ◌∙◌, ap, inl, inr, Bool-cases, arith, ◌==◌}
use arachnopod.Base.{ℤ, pos, negsuc, pos_part, neg_part}
use arachnopod.MsgBlock.{layout_supported, read_value, write_value}
use arachnopod.MsgBlock.Fields.{stored}
use arachnopod.MsgBlock.Values.{write_value_accepts, write_value_done}
use arachnopod.Tables.Config.{alg_an, type_sign}
use arachnopod.Tables.Entry.{Entry, type_width_bits}
use arachnopod.Ipar.Codes.{
  encode_to_bits, clamp_wire_value, wire_range, InRange, IsWidth, one, eight, sixteen,
  decode-encode, clamp_wire_value_lem,
}
use arachnopod.Ipar.Context.{
  ok, value_out_of_range, write_buf, set_write_buf, read_buf, ParContext, ResolvedItem, item,
  fill_item_layout,
}
use arachnopod.Ipar.Floats.{FloatOps, IsExact}
use arachnopod.Ipar.Access.{set_resolved, get_resolved}
use arachnopod.Ipar.Convert.{
  raw_value, prepare_raw_value, candidates_for, add_quant_candidates, add_candidate, has_candidate,
  best_loop, decode_processed, error_of, k_max_candidates,
}

-- The item of a row that `fill_item_layout` makes.
abbrev pub item_of : ℕ → ℕ → Entry → ResolvedItem
item_of count n e = record {
  block_count = count;
  block_n = n;
  block_offset = e.msg_block_offset;
  width_bits = type_width_bits e.type;
  wire_signed = e.sign == type_sign;
  tar_a = e.tar_a;
  tar_b = e.tar_b;
  tar_c = e.tar_c;
  alg = e.alg;
}

pub fill_item_layout-item :
    (bs : List ℕ) (count n : ℕ) (e : Entry)
    → n < count
    → layout_supported (type_width_bits e.type) (pos e.msg_block_offset) ≡ true
    → fill_item_layout (some bs) count n e ≡ item (item_of count n e)
unfolding fill_item_layout layout_supported
fill_item_layout-item bs count n e lt supported = ground arith

pub IsWidth-layout : (w o : ℕ) → layout_supported w (pos o) ≡ true → IsWidth w
unfolding layout_supported
IsWidth-layout w o h = elim (Bool-cases (w == 1)) [
  | inl e ↦ let q : 1 ≡ w = ground arith in rw⁻¹ q one
  | inr n1 ↦ elim (Bool-cases (w == 8)) [
    | inl e ↦ let q : 8 ≡ w = ground arith in rw⁻¹ q eight
    | inr n8 ↦ let q : 16 ≡ w = ground arith in rw⁻¹ q sixteen
  ]
]

-- The integers of a field are exact in a `float`.
range-small :
    (w : ℕ) (sg : Bool) (z : ℤ)
    → IsWidth w
    → InRange w sg z
    → (pos_part z ≤ 65536) × (neg_part z ≤ 65536)
unfolding wire_range
range-small _ true z one h = ground arith
range-small _ true z eight h = ground arith
range-small _ true z sixteen h = ground arith
range-small _ false z one h = ground arith
range-small _ false z eight h = ground arith
range-small _ false z sixteen h = ground arith

pub stored-lt : (w raw : ℕ) → IsWidth w → raw < 2 ^ w → stored w raw ≡ raw
stored-lt _ raw one h = ground arith
stored-lt _ raw eight h = ground arith
stored-lt _ raw sixteen h = ground arith

has_candidate_self : (z : ℤ) → has_candidate (z ∷ []) z ≡ true
unfolding has_candidate
has_candidate_self (pos n) = ground arith
has_candidate_self (negsuc n) = ground arith

add_candidate_self : (k : ℕ) (z : ℤ) → add_candidate k z (z ∷ []) ≡ z ∷ []
unfolding add_candidate
add_candidate_self k z = rw (has_candidate_self z) refl

add_candidate_first : (k : ℕ) (z : ℤ) → 0 < k → add_candidate k z [] ≡ z ∷ []
unfolding add_candidate has_candidate
add_candidate_first k z lt = ground arith

module _ {F : Type 0} (ops : FloatOps F) (exact : IsExact ops) where
  quant_int :
      (z : ℤ)
      → pos_part z ≤ 65536
      → neg_part z ≤ 65536
      → add_quant_candidates ops (ops.of_int z) [] ≡ z ∷ []
  unfolding add_quant_candidates
  quant_int z a b =
      rw
        (
          exact.finite_int z a b,
          exact.floor_int z a b,
          exact.ceil_int z a b,
          exact.llround_int z a b,
          add_candidate_first k_max_candidates z (omega arith),
          add_candidate_self k_max_candidates z,
          add_candidate_self k_max_candidates z,
        )
        refl

  candidates_for-an :
      (i : ResolvedItem) (x : F)
      → i.alg ≡ alg_an
      → candidates_for ops i x ≡ (some (add_quant_candidates ops x []), value_out_of_range)
  unfolding candidates_for
  candidates_for-an i x a = ground arith

  pub decode_processed-an :
      (i : ResolvedItem) (x : F) → i.alg ≡ alg_an → decode_processed ops i x ≡ x
  unfolding decode_processed
  decode_processed-an i x a = ground arith

  best_loop_one :
      (i : ResolvedItem) (x : F) (z b : ℤ)
      → ops.less (error_of ops i x (clamp_wire_value i.width_bits i.wire_signed z)) ops.infinity
        ≡ true
      → best_loop ops i x (z ∷ []) b ops.infinity ≡ clamp_wire_value i.width_bits i.wire_signed z
  unfolding best_loop
  best_loop_one i x z b e = rw e refl

  -- An integer in the range of a field without calibration is prepared as it is.
  pub prepare_int :
      (i : ResolvedItem) (z : ℤ)
      → IsWidth i.width_bits
      → i.alg ≡ alg_an
      → InRange i.width_bits i.wire_signed z
      → prepare_raw_value ops i (ops.of_int z) ≡ raw_value z
  unfolding prepare_raw_value
  prepare_int i z w a r =
      let (p, n) = range-small i.width_bits i.wire_signed z w r in
      let kept = (clamp_wire_value_lem i.width_bits i.wire_signed z w).1 r in
      let small : ops.less
            (ops.abs (
              ops.sub
                (decode_processed ops i
                  (ops.of_int (clamp_wire_value i.width_bits i.wire_signed z)))
                (ops.of_int z)))
            ops.infinity
          ≡ true =
        rw (kept, decode_processed-an i (ops.of_int z) a) (exact.error_int z p n) in
      rw (candidates_for-an i (ops.of_int z) a, quant_int z p n)
        (ap raw_value (best_loop_one i (ops.of_int z) z _ small ∙ kept))

  -- What `IMSGSET` does with an item and an integer in its range.
  pub set_int :
      (ctx : ParContext) (i : ResolvedItem) (bs : List ℕ) (z : ℤ)
      → write_buf ctx ≡ some bs
      → IsWidth i.width_bits
      → i.alg ≡ alg_an
      → InRange i.width_bits i.wire_signed z
      → layout_supported i.width_bits (pos i.block_offset) ≡ true
      → i.block_n < i.block_count
      → (bs' : List ℕ) × (write_value
            (some bs)
            i.block_count
            i.block_n
            i.block_offset
            i.width_bits
            (encode_to_bits z i.width_bits)
          ≡ (true, some bs'))
        × (set_resolved ops ctx (ops.of_int z) (item i) ≡ (ok, set_write_buf (some bs') ctx))
  set_int ctx i bs z b w a r supported lt =
      let raw = encode_to_bits z i.width_bits in
      let accepts =
        write_value_accepts bs i.block_count i.block_n i.block_offset i.width_bits raw in
      let (bs', written) =
        write_value_done bs i.block_count i.block_n i.block_offset i.width_bits raw
          (accepts.0 ∙ ground (arith, supported, lt)) in
      (bs', written, rw (prepare_int i z w a r, b, written) refl)

  -- What `IMSGGET` makes of an item whose field has the digits of an integer in its range.
  pub get_int :
      (ctx : ParContext) (i : ResolvedItem) (z : ℤ)
      → IsWidth i.width_bits
      → i.alg ≡ alg_an
      → InRange i.width_bits i.wire_signed z
      → read_value (read_buf ctx) i.block_count i.block_n i.block_offset i.width_bits
        ≡ some (encode_to_bits z i.width_bits)
      → get_resolved ops ctx (item i) ≡ (ok, ops.of_int z)
  get_int ctx i z w a r e =
      let (p, n) = range-small i.width_bits i.wire_signed z w r in
      rw
        (
          e,
          (decode-encode i.width_bits i.wire_signed z w r).0,
          decode_processed-an i (ops.of_int z) a,
          exact.float_int z p n,
        )
        refl
