-- ===== src/Ipar/Convert.antt =====
-- The calibration of i_par.cpp, over the floating point arithmetic `ops`: from the integer of a
-- field to the value, and from a value to the integer that comes nearest.
use arachnopod.Base.{ℕ, Bool, false, ◌||◌, Option, none, some, List, [], ◌∷◌, ◌++◌, ltb, ◌==◌}
use arachnopod.Base.{if◌then◌else◌, length, ℤ, pos, eqb_ℤ, not}
use arachnopod.Tables.Config.{alg_none, alg_an, alg_ac, alg_abc, alg_aac}
use arachnopod.Ipar.Codes.{clamp_wire_value}
use arachnopod.Ipar.Context.{ParStatus, value_out_of_range, bad_type, ResolvedItem}
use arachnopod.Ipar.Floats.{FloatOps}

-- `add_candidate`: the list is the used part of the array of `capacity` elements.
unfoldable pub has_candidate : List ℤ → ℤ → Bool
has_candidate [] value = false
has_candidate (c ∷ cs) value = eqb_ℤ c value || has_candidate cs value

unfoldable pub add_candidate : ℕ → ℤ → List ℤ → List ℤ
unfolding has_candidate
add_candidate capacity value candidates =
    if has_candidate candidates value
    then candidates
    else if ltb (length candidates) capacity
    then candidates ++ (value ∷ [])
    else candidates

abbrev pub k_max_candidates : ℕ
k_max_candidates = 12

-- A value or the status that refuses it.
pub data Prepared : Type 0 where
  failed : ParStatus → Prepared
  raw_value : ℤ → Prepared

module _ {F : Type 0} (ops : FloatOps F) where
  abbrev pub of_nat : ℕ → F
  of_nat n = ops.of_int (pos n)

  unfoldable pub decode_processed : ResolvedItem → F → F
  decode_processed item raw =
      if (item.alg == alg_none) || (item.alg == alg_an)
      then raw
      else if item.alg == alg_ac
      then ops.add raw (of_nat item.tar_c)
      else if item.alg == alg_abc
      then ops.add (ops.mul (of_nat item.tar_b) raw) (of_nat item.tar_c)
      else if item.alg == alg_aac
      then ops.add (ops.mul (ops.mul (of_nat item.tar_a) raw) raw) (of_nat item.tar_c)
      else raw

  unfoldable pub add_quant_candidates : F → List ℤ → List ℤ
  unfolding add_candidate
  add_quant_candidates q candidates =
      if not (ops.is_finite q)
      then candidates
      else add_candidate k_max_candidates (ops.ceil q) (
          add_candidate k_max_candidates (ops.floor q)
            (add_candidate k_max_candidates (ops.llround q) candidates))

  -- The switch on the algorithm in `prepare_raw_value`: the candidates.
  unfoldable pub candidates_for : ResolvedItem → F → Option (List ℤ) × ParStatus
  unfolding add_quant_candidates
  candidates_for item desired =
      let shifted = ops.sub desired (of_nat item.tar_c) in
      let ratio = ops.div shifted (of_nat item.tar_a) in
      let root = ops.sqrt ratio in
      if (item.alg == alg_none) || (item.alg == alg_an)
      then (some (add_quant_candidates desired []), value_out_of_range)
      else if item.alg == alg_ac
      then (some (add_quant_candidates shifted []), value_out_of_range)
      else if item.alg == alg_abc
      then (if ops.equal (of_nat item.tar_b) (of_nat 0) then (none, value_out_of_range) else (
        some (add_quant_candidates (ops.div shifted (of_nat item.tar_b)) []),
        value_out_of_range,
      ))
      else if item.alg == alg_aac
      then (if ops.equal (of_nat item.tar_a) (of_nat 0)
          then (none, value_out_of_range)
          else if ops.less ratio (of_nat 0)
          then (none, value_out_of_range)
          else (
            some (add_quant_candidates (ops.neg root) (add_quant_candidates root [])),
            value_out_of_range,
          ))
      else (none, bad_type)

  abbrev pub error_of : ResolvedItem → F → ℤ → F
  error_of item desired clamped =
      ops.abs (ops.sub (decode_processed item (ops.of_int clamped)) desired)

  -- The loop over the candidates, with the best so far and its error.
  unfoldable pub best_loop : ResolvedItem → F → List ℤ → ℤ → F → ℤ
  best_loop item desired [] best best_error = best
  best_loop item desired (c ∷ cs) best best_error =
      let clamped = clamp_wire_value item.width_bits item.wire_signed c in
      let error = error_of item desired clamped in
      let better = best_loop item desired cs clamped error in
      let same = best_loop item desired cs best best_error in
      if ops.less error best_error then better else same

  abbrev pub choose_best : ResolvedItem → F → Option (List ℤ) → ParStatus → Prepared
  choose_best item desired none status = failed status
  choose_best item desired (some []) status = failed value_out_of_range
  choose_best item desired (some (c ∷ cs)) status = raw_value (
      best_loop item desired (c ∷ cs) (clamp_wire_value item.width_bits item.wire_signed c)
        ops.infinity)

  unfoldable pub prepare_raw_value : ResolvedItem → F → Prepared
  unfolding candidates_for
  prepare_raw_value item input =
      choose_best item input (candidates_for item input).0 (candidates_for item input).1
