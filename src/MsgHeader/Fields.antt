-- ===== src/MsgHeader/Fields.antt =====
-- `make` and `parse` of i_msg_header.cpp are inverse to one another.
use arachnopod.Base.{ℕ, ◌+◌, ◌*◌, ◌%◌, ◌<◌, true, some}
use arachnopod.Base.{◌≡◌, ap, arith}
use arachnopod.MsgHeader.{Value, calc_parity, parity_ok, parse, make, set_parity, parity_of}

-- The parity does not depend on the parity digit.
calc_parity-set_parity : (raw v : ℕ) → calc_parity (set_parity raw v) ≡ calc_parity raw
unfolding calc_parity
calc_parity-set_parity raw v =
    let e : set_parity (set_parity raw v) 0 ≡ set_parity raw 0 = omega arith in rw e

calc_parity-lt : (raw : ℕ) → calc_parity raw < 2
unfolding calc_parity
calc_parity-lt raw = omega arith

parity_ok-set_parity : (raw : ℕ) → parity_ok (set_parity raw (calc_parity raw)) ≡ true
unfolding parity_ok
parity_ok-set_parity raw =
    ground (arith, calc_parity-set_parity raw (calc_parity raw), calc_parity-lt raw)

-- The fields side by side, the parity digit clear.
abbrev fields : ℕ → ℕ → ℕ → ℕ → ℕ
fields addr flag marker nblocks =
    addr % 32 * 2 + flag % 4 * 64 + marker % 8 * 256 + nblocks % 32 * 2048

make-fields :
    (addr flag marker nblocks : ℕ)
    → make addr flag marker nblocks
      ≡ set_parity (fields addr flag marker nblocks) (calc_parity (fields addr flag marker nblocks))
unfolding make
make-fields addr flag marker nblocks = ap (λ h. set_parity h (calc_parity h)) (omega arith)

-- Every header that `make` builds is a 16-bit word and parses, to the low digits of the fields
-- that it was given.
pub parse-make :
    (addr flag marker nblocks : ℕ)
    → (parse (make addr flag marker nblocks)
        ≡ some (record {
          parity = parity_of (make addr flag marker nblocks);
          addr = addr % 32;
          flag = flag % 4;
          marker = marker % 8;
          nblocks = nblocks % 32;
        }))
      × (make addr flag marker nblocks < 65536)
unfolding parse
parse-make addr flag marker nblocks =
    let h = fields addr flag marker nblocks in
    rw (make-fields addr flag marker nblocks) (ground (arith, parity_ok-set_parity h), omega arith)

-- A 16-bit header that parses is rebuilt by `make` from its fields.
pub make-parse :
    (raw : ℕ) {v : Value}
    → raw < 65536
    → parse raw ≡ some v
    → make v.addr v.flag v.marker v.nblocks ≡ raw
unfolding parse parity_ok
make-parse raw {v} h e =
    let sum : fields v.addr v.flag v.marker v.nblocks ≡ set_parity raw 0 = ground arith in
    rw (make-fields v.addr v.flag v.marker v.nblocks, sum, calc_parity-set_parity raw 0)
      (ground arith)
