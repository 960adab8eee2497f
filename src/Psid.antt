-- ===== src/Psid.antt =====
-- mapecd-common/src/lib.rs: `PsidConfig`, the parameters that user space computes and writes to
-- CONFIG_MAP, and that the two eBPF programs read.
pub mod Geometry
use mapecd.Common.{
  ℕ, ◌+◌, ◌-◌, ◌%◌, ◌^◌, ltb, ◌==◌, if◌then◌else◌, Res, ok, err, ◌>>=◌, add_checked, sub_checked,
  mul_checked, shl_checked,
}

pub record PsidConfig : Type 0 where
  pub offset : ℕ
  pub length : ℕ
  pub block_shift : ℕ
  pub psid : ℕ
  pub staging_min : ℕ
  pub staging_max : ℕ

-- The `None` of `PsidConfig::try_new`.
pub data Refused : Type 0 where
  refused : Refused

-- The part of `try_new` below the test of `offset == 0`.
try_new_blocks : ℕ → ℕ → ℕ → Res Refused PsidConfig
try_new_blocks offset length psid = do
  let block_shift = 16 - offset - length
  shift ← sub_checked 16 offset
  staging_min ← shl_checked 16 1 shift
  blocks ← shl_checked 32 1 offset
  num_r_blocks ← sub_checked blocks 1
  block_size ← shl_checked 32 1 block_shift
  total_ports ← mul_checked 32 num_r_blocks block_size
  end ← add_checked 32 staging_min total_ports
  last ← sub_checked end 1
  ok (record {
    offset = offset;
    length = length;
    block_shift = block_shift;
    psid = psid;
    staging_min = staging_min;
    staging_max = last % 2 ^ 16;
  })

-- `PsidConfig::try_new`. The sum of two `u8` fits the `u16` that it is taken in.
unfoldable pub try_new : ℕ → ℕ → ℕ → Res Refused PsidConfig
unfolding try_new_blocks
try_new offset length psid =
    if ltb 16 (offset + length)
    then err refused
    else if offset == 0
    then ok (record {
      offset = 0;
      length = length;
      block_shift = 0;
      psid = psid;
      staging_min = 1;
      staging_max = 65535;
    })
    else try_new_blocks offset length psid
