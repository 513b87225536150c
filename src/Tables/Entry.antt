-- ===== src/Tables/Entry.antt =====
-- `S_commtab` and `S_paramtab`, which have the same fields, and the width of a field's type.
use arachnopod.Base.{ℕ, ◌==◌, if◌then◌else◌}
use arachnopod.Tables.Config.{type_d, type_a, type_ap}

pub record Entry : Type 0 where
  pub sys_id : ℕ
  pub type : ℕ
  pub type_real : ℕ
  pub sign : ℕ
  pub tar_a : ℕ
  pub tar_b : ℕ
  pub tar_c : ℕ
  pub msg_offset : ℕ
  pub msg_block_offset : ℕ
  pub msg_block_n : ℕ
  pub msg_cs_offset : ℕ
  pub msg_cs_block_n : ℕ
  pub alg : ℕ

abbrev pub entry : ℕ → ℕ → ℕ → ℕ → ℕ → ℕ → ℕ → ℕ → ℕ → ℕ → ℕ → ℕ → ℕ → Entry
entry s t r g a b c o bo bn co cb alg = record {
  sys_id = s;
  type = t;
  type_real = r;
  sign = g;
  tar_a = a;
  tar_b = b;
  tar_c = c;
  msg_offset = o;
  msg_block_offset = bo;
  msg_block_n = bn;
  msg_cs_offset = co;
  msg_cs_block_n = cb;
  alg = alg;
}

-- 0 stands for a type that has no field.
unfoldable pub type_width_bits : ℕ → ℕ
type_width_bits type =
    if type == type_d then 1 else if type == type_a then 8 else if type == type_ap then 16 else 0
