-- ===== src/Isim/Stored.antt =====
-- What the integer access of i_sim.cpp keeps of a value.
use arachnopod.Base.{ℕ, ◌-◌, ◌^◌, ◌≤◌, ◌<◌, Bool, true, false, some, List, ◌≡◌, ◌≢◌, refl, arith}
use arachnopod.Base.{
  length, get_or, set, length-set, get_or-set_self, get_or-set_ne, if◌then◌else◌, ◌&&◌,
}
use arachnopod.Base.{ℤ, pos, negsuc, pos_part, neg_part, eqb_ℤ, clamp_ℤ, ◌≤ℤ◌, to_u32}
use arachnopod.Ipar.Floats.{FloatOps}
use arachnopod.Isim.Values.{
  Kind, u8_kind, s8_kind, u16_kind, s16_kind, u32_kind, s32_kind, f32_kind, Domain, ok, SimValue,
  u32_value, Binding, is_binary, isimi32, normalized, payload_i32, kind_of, same_kind,
}
use arachnopod.Isim.Registry.{find_binding}
use arachnopod.Isim.Access.{
  SimStore, no_cell, isimget, isimgeti32, isimseti32, read_typed_value, write_typed_value,
}

-- The integers that a variable of a kind can hold and `int32_t` can express.
unfoldable pub range_of : Kind → ℤ × ℤ
range_of u8_kind = (pos 0, pos 255)
range_of s8_kind = (negsuc 127, pos 127)
range_of u16_kind = (pos 0, pos 65535)
range_of s16_kind = (negsuc 32767, pos 32767)
range_of u32_kind = (pos 0, pos (2 ^ 31 - 1))
range_of _ = (negsuc (2 ^ 31 - 1), pos (2 ^ 31 - 1))

abbrev pub is_u8 : Kind → Bool
is_u8 u8_kind = true
is_u8 _ = false

-- The value cut to the range, and a truth value made 0 or 1.
unfoldable pub kept_value : Kind → Domain → ℤ → ℤ
unfolding range_of
kept_value kind domain v =
    let cut = clamp_ℤ v (range_of kind).0 (range_of kind).1 in
    if is_u8 kind && is_binary domain then (if eqb_ℤ cut (pos 0) then pos 0 else pos 1) else cut

abbrev pub IsI32 : ℤ → Type 0
IsI32 v = (pos_part v ≤ 2 ^ 31 - 1) × (neg_part v ≤ 2 ^ 31)

-- An integer kind that can take `v`: a negative value is refused only by `u32`.
abbrev pub Takes : Kind → ℤ → Type 0
Takes kind v = IsI32 v × ((kind ≢ f32_kind) × (kind ≡ u32_kind → pos 0 ≤ℤ v))

module _ {F : Type 0} (ops : FloatOps F) where
  payload-kept :
      (kind : Kind) (domain : Domain) (v : ℤ)
      → Takes kind v
      → (payload : SimValue F) × (payload_i32 ops kind v ≡ some payload)
        × (same_kind (kind_of payload) kind ≡ true)
        × (isimi32 ops (normalized ops domain payload) ≡ kept_value kind domain v)
  unfolding payload_i32 normalized isimi32 kept_value
  payload-kept u8_kind domain v t = (_, refl, refl, ground arith)
  payload-kept s8_kind domain v t = (_, refl, refl, ground arith)
  payload-kept u16_kind domain v t = (_, refl, refl, ground arith)
  payload-kept s16_kind domain v t = (_, refl, refl, ground arith)
  payload-kept u32_kind domain v t = (u32_value (to_u32 v), ground arith, refl, ground arith)
  payload-kept s32_kind domain v t = (_, refl, refl, ground arith)
  payload-kept f32_kind domain v t = absurd (t.1.0 refl)

  -- An identifier that is bound to the variable `p` of the store.
  pub record IsBound (s : SimStore F) (id : ℕ) (b : Binding) (p : ℕ) : Type 0 where
    pub bindings : List Binding
    pub registry : s.registry ≡ some bindings
    pub found : find_binding bindings id ≡ some b
    pub points : b.ptr ≡ some p
    pub held : p < length s.cells

  isimseti32-bound :
      (s : SimStore F) (id p : ℕ) (b : Binding) (v : ℤ) (payload : SimValue F)
      → IsBound s id b p
      → payload_i32 ops b.kind v ≡ some payload
      → same_kind (kind_of payload) b.kind ≡ true
      → isimseti32 ops id v s
        ≡ (ok, record s { cells = set s.cells p (normalized ops b.domain payload) })
  unfolding isimseti32 write_typed_value
  isimseti32-bound s id p b v payload h made kind = simp (h.registry, h.found, made, h.points, kind)

  pub isimgeti32-bound :
      (s : SimStore F) (id p : ℕ) (b : Binding)
      → IsBound s id b p
      → isimgeti32 ops id s ≡ (ok, some (isimi32 ops (get_or s.cells p no_cell)))
  unfolding isimgeti32 isimget read_typed_value
  isimgeti32-bound s id p b h = simp (h.registry, h.found, h.points)

  -- The store after a set that was accepted.
  pub record Kept (s : SimStore F) (id p : ℕ) (b : Binding) (v : ℤ) : Type 0 where
    pub after : SimStore F
    pub done : isimseti32 ops id v s ≡ (ok, after)
    pub bound : IsBound after id b p
    pub same_registry : after.registry ≡ s.registry
    pub same_length : length after.cells ≡ length s.cells
    pub value : isimgeti32 ops id after ≡ (ok, some (kept_value b.kind b.domain v))
    pub others : (q : ℕ) → p ≢ q → get_or after.cells q no_cell ≡ get_or s.cells q no_cell

  pub set-Kept :
      (s : SimStore F) (id p : ℕ) (b : Binding) (v : ℤ)
      → IsBound s id b p
      → Takes b.kind v
      → Kept s id p b v
  set-Kept s id p b v h t =
      let (payload, made, kind, kept) = payload-kept b.kind b.domain v t in
      let new = normalized ops b.domain payload in
      let here = get_or-set_self s.cells p new no_cell h.held in
      let bound : IsBound (record s { cells = set s.cells p new }) id b p = record {
        bindings = h.bindings;
        registry = h.registry;
        found = h.found;
        points = h.points;
        held = omega (arith, h.held, length-set s.cells p new);
      } in
      record {
        after = record s { cells = set s.cells p new };
        done = isimseti32-bound s id p b v payload h made kind;
        bound = bound;
        same_registry = refl;
        same_length = length-set s.cells p new;
        value =
            rw (isimgeti32-bound (record s { cells = set s.cells p new }) id p b bound, here, kept)
              refl;
        others = λ q ne. get_or-set_ne s.cells p q new no_cell ne;
      }

  -- An integer that is set through the identifier of an integer variable which can take it is
  -- accepted, reads back cut to the range of the variable's kind (and as 0 or 1, if the variable
  -- is a truth value), and no other variable changes.
  pub isimgeti32-isimseti32 :
      (s : SimStore F) (id p : ℕ) (b : Binding) (v : ℤ)
      → IsBound s id b p
      → Takes b.kind v
      → let after = isimseti32 ops id v s in
        (after.0 ≡ ok)
        × (isimgeti32 ops id after.1 ≡ (ok, some (kept_value b.kind b.domain v)))
        × ((q : ℕ) → p ≢ q → get_or after.1.cells q no_cell ≡ get_or s.cells q no_cell)
  isimgeti32-isimseti32 s id p b v h t =
      let k = set-Kept s id p b v h t in rw k.done (refl, k.value, k.others)
