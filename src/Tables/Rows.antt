-- ===== src/Tables/Rows.antt =====
-- Tests on the rows of a table: that each field lies in a supported place, and that no two overlap.
use arachnopod.Base.{ℕ, zero, suc, ◌+◌, ◌<◌, Bool, true, not, ◌&&◌, ◌||◌}
use arachnopod.Base.{List, [], ◌∷◌, ◌≡◌, ◌≢◌, refl, ap, arith, ltb, leb, ◌==◌}
use arachnopod.Base.{length, get_or, pos}
use arachnopod.MsgBlock.{layout_supported}
use arachnopod.Tables.Config.{sys_none}
use arachnopod.Tables.Entry.{Entry, entry, type_width_bits}

-- A row for indices outside a table.
abbrev pub no_entry : Entry
no_entry = entry sys_none 0 0 0 0 0 0 0 0 0 0 0 0

abbrev pub width : Entry → ℕ
width e = type_width_bits e.type

-- The block of a row: its own system's message, or the image that CS keeps of all systems.
abbrev pub own_block : Entry → ℕ
own_block e = e.msg_block_n

abbrev pub cs_block : Entry → ℕ
cs_block e = e.msg_cs_block_n

unfoldable pub all_rows : (Entry → Bool) → List Entry → Bool
all_rows test [] = true
all_rows test (e ∷ es) = test e && all_rows test es

pub all_rows-get_or :
    (test : Entry → Bool) (es : List Entry) (i : ℕ)
    → all_rows test es ≡ true
    → i < length es
    → test (get_or es i no_entry) ≡ true
unfolding all_rows
all_rows-get_or test [] i h p = absurd (omega arith)
all_rows-get_or test (e ∷ es) zero h p = ground arith
all_rows-get_or test (e ∷ es) (suc i) h p = all_rows-get_or test es i (ground arith) (omega arith)

-- Rows that lie in other blocks, or in other bits of one block.
module _ (block : Entry → ℕ) (related : Entry → Entry → Bool) where
  unfoldable pub apart : Entry → Entry → Bool
  apart e f =
      not (related e f)
      || (not (block e == block f)
          || (leb (e.msg_block_offset + width e) f.msg_block_offset
              || leb (f.msg_block_offset + width f) e.msg_block_offset))

  unfoldable pub apart_all : Entry → List Entry → Bool
  apart_all e [] = true
  apart_all e (f ∷ fs) = apart e f && (apart f e && apart_all e fs)

  unfoldable pub apart_pairs : List Entry → Bool
  apart_pairs [] = true
  apart_pairs (e ∷ es) = apart_all e es && apart_pairs es

  pub apart_all-get_or :
      (e : Entry) (fs : List Entry) (j : ℕ)
      → apart_all e fs ≡ true
      → j < length fs
      → (apart e (get_or fs j no_entry) ≡ true) × (apart (get_or fs j no_entry) e ≡ true)
  unfolding apart_all
  apart_all-get_or e [] j h lt = absurd (omega arith)
  apart_all-get_or e (f ∷ fs) zero h lt = ground arith
  apart_all-get_or e (f ∷ fs) (suc j) h lt = apart_all-get_or e fs j (ground arith) (omega arith)

  pub apart_pairs-get_or :
      (es : List Entry) (i j : ℕ)
      → apart_pairs es ≡ true
      → i < length es
      → j < length es
      → i ≢ j
      → apart (get_or es i no_entry) (get_or es j no_entry) ≡ true
  unfolding apart_pairs
  apart_pairs-get_or [] i j h p q ne = absurd (omega arith)
  apart_pairs-get_or (e ∷ es) zero zero h p q ne = absurd (ne refl)
  apart_pairs-get_or (e ∷ es) zero (suc j) h p q ne =
      (apart_all-get_or e es j (ground arith) (omega arith)).0
  apart_pairs-get_or (e ∷ es) (suc i) zero h p q ne =
      (apart_all-get_or e es i (ground arith) (omega arith)).1
  apart_pairs-get_or (e ∷ es) (suc i) (suc j) h p q ne =
      apart_pairs-get_or es i j (ground arith) (omega arith) (omega arith) (λ r. ne (ap suc r))

abbrev pub same_system : Entry → Entry → Bool
same_system e f = e.sys_id == f.sys_id

abbrev pub any_system : Entry → Entry → Bool
any_system e f = true

-- The row's field is in a supported place of a block below the count.
unfoldable pub place_ok : (Entry → ℕ) → ℕ → Entry → Bool
place_ok block count e = layout_supported (width e) (pos e.msg_block_offset) && ltb (block e) count
