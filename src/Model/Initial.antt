-- ===== src/Model/Initial.antt =====
-- What `init_params` of sim_base.hpp leaves in the variables of a table.
use arachnopod.Base.{
  ℕ, zero, suc, ◌≤◌, ◌<◌, Bool, true, false, ◌&&◌, Option, none, some, List, [], ◌∷◌,
}
use arachnopod.Base.{
  ◌≡◌, refl, ◌∙◌, arith, leb, length, get_or, set, length-set, get_or-set_self, get_or-set_ne,
}
use arachnopod.Ipar.Floats.{FloatOps}
use arachnopod.Isim.Values.{SimValue}
use arachnopod.Isim.Access.{no_cell}
use arachnopod.Isim.Registry.{ParamEntry}
use arachnopod.Model.Params.{assign, init_param, init_params, initial_value}
use arachnopod.Model.Registered.{no_param}

-- The variables of a table are distinct: their numbers ascend from `low` on, and end below `high`.
abbrev pub address : Option ℕ → ℕ
address none = 0
address (some p) = p

abbrev has_address : ℕ → Option ℕ → Bool
has_address low none = false
has_address low (some p) = leb low p

unfoldable pub addressed : ℕ → ℕ → List ParamEntry → Bool
addressed low high [] = leb low high
addressed low high (e ∷ es) = has_address low e.ptr && addressed (suc (address e.ptr)) high es

has_address-le : (low : ℕ) (o : Option ℕ) → has_address low o ≡ true → low ≤ address o
has_address-le low none h = absurd (ground arith)
has_address-le low (some p) h = ground arith

addressed-le : (es : List ParamEntry) (low high : ℕ) → addressed low high es ≡ true → low ≤ high
unfolding addressed
addressed-le [] low high h = ground arith
addressed-le (e ∷ es) low high h =
    let at = has_address-le low e.ptr (ground arith) in
    let rest = addressed-le es (suc (address e.ptr)) high (ground arith) in omega arith

module _ {F : Type 0} (ops : FloatOps F) where
  assign-set :
      (low : ℕ) (o : Option ℕ) (v : SimValue F) (cells : List (SimValue F))
      → has_address low o ≡ true
      → assign ops o v cells ≡ set cells (address o) v
  assign-set low none v cells h = absurd (ground arith)
  assign-set low (some p) v cells h = refl

  -- Running over a table leaves the variables below its own alone, and the number of variables.
  init_params_below :
      (es : List ParamEntry) (cells : List (SimValue F)) (low high q : ℕ)
      → addressed low high es ≡ true
      → q < low
      → (get_or (init_params ops es cells) q no_cell ≡ get_or cells q no_cell)
        × (length (init_params ops es cells) ≡ length cells)
  unfolding init_params init_param addressed
  init_params_below [] cells low high q h lt = (refl, refl)
  init_params_below (e ∷ es) cells low high q h lt =
      let v = initial_value ops e.physical_type e.init_value in
      let here : has_address low e.ptr ≡ true = ground arith in
      let at = has_address-le low e.ptr here in
      let (same, long) =
        init_params_below es (set cells (address e.ptr) v) (suc (address e.ptr)) high q
          (ground arith) (omega arith) in
      rw (assign-set low e.ptr v cells here) (
        same ∙ get_or-set_ne cells (address e.ptr) q v no_cell (λ x. omega arith),
        long ∙ length-set cells (address e.ptr) v,
      )

  -- After `init_params` of a table whose variables are distinct and held in the store, the variable
  -- of every entry has the entry's initial value, in its type.
  pub init_params_lem :
      (es : List ParamEntry) (cells : List (SimValue F)) (low high i : ℕ)
      → addressed low high es ≡ true
      → high ≤ length cells
      → i < length es
      → let e = get_or es i no_param in
        get_or (init_params ops es cells) (address e.ptr) no_cell
        ≡ initial_value ops e.physical_type e.init_value
  unfolding init_params init_param addressed
  init_params_lem [] cells low high i h room lt = absurd (omega arith)
  init_params_lem (e ∷ es) cells low high zero h room lt =
      let v = initial_value ops e.physical_type e.init_value in
      let here : has_address low e.ptr ≡ true = ground arith in
      let below = addressed-le es (suc (address e.ptr)) high (ground arith) in
      let (same, long) =
        init_params_below es (set cells (address e.ptr) v) (suc (address e.ptr)) high
          (address e.ptr) (ground arith) (omega arith) in
      rw (assign-set low e.ptr v cells here)
        (same ∙ get_or-set_self cells (address e.ptr) v no_cell (omega arith))
  init_params_lem (e ∷ es) cells low high (suc i) h room lt =
      let v = initial_value ops e.physical_type e.init_value in
      let here : has_address low e.ptr ≡ true = ground arith in
      let long = length-set cells (address e.ptr) v in
      rw (assign-set low e.ptr v cells here) (
        init_params_lem es (set cells (address e.ptr) v) (suc (address e.ptr)) high i (ground arith)
          (omega arith) (omega arith))
