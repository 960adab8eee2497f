-- ===== src/Ebpf/Port.antt =====
-- The arithmetic of mapecd-ebpf/src/egress.rs and ingress.rs on one `u16` value.
use mapecd.Common.{
  ℕ, ◌+◌, ◌-◌, ◌%◌, ◌^◌, bit_and, bit_or, ◌||◌, Option, none, some, ltb, ◌==◌, if◌then◌else◌, Res,
  ok, ◌>>=◌, add_checked, sub_checked, shl_checked, shr_checked,
}
use mapecd.Psid.{PsidConfig}

-- `(1u16 << block_shift).wrapping_sub(1)`.
unfoldable pub block_mask : PsidConfig → Res Unit ℕ
block_mask cfg = do block ← shl_checked 16 1 cfg.block_shift; ok ((block + 2 ^ 16 - 1) % 2 ^ 16)

-- egress.rs: staging value to PSID value.
unfoldable pub staging_to_psid : PsidConfig → ℕ → Res Unit ℕ
staging_to_psid cfg staging_val = do
  mask ← block_mask cfg
  idx ← sub_checked staging_val cfg.staging_min
  block ← shr_checked 16 idx cfg.block_shift
  r ← add_checked 16 block 1
  let j = bit_and idx mask
  shift ← sub_checked 16 cfg.offset
  high ← shl_checked 16 r shift
  middle ← shl_checked 16 cfg.psid cfg.block_shift
  sum ← add_checked 16 high middle
  add_checked 16 sum j

-- egress.rs: a value outside the staging range is passed as it is, `none`.
unfoldable pub egress_value : PsidConfig → ℕ → Res Unit (Option ℕ)
egress_value cfg staging_val =
    if ltb staging_val cfg.staging_min || ltb cfg.staging_max staging_val
    then ok none
    else (do psid_val ← staging_to_psid cfg staging_val; ok (some psid_val))

-- ingress.rs: PSID value to staging value, once `r` is known not to be 0.
unfoldable pub psid_to_staging : PsidConfig → ℕ → ℕ → ℕ → Res Unit ℕ
psid_to_staging cfg mask r psid_val = do
  let j = bit_and psid_val mask
  above ← sub_checked r 1
  block ← shl_checked 16 above cfg.block_shift
  add_checked 16 cfg.staging_min (bit_or block j)

-- The test that a value's PSID field is this CE's, and the translation behind it.
unfoldable pub own_psid_to_staging : PsidConfig → ℕ → ℕ → ℕ → Res Unit (Option ℕ)
own_psid_to_staging cfg mask r psid_val = do
  field ← shr_checked 16 psid_val cfg.block_shift
  ones ← shl_checked 16 1 cfg.length
  psid_mask ← sub_checked ones 1
  let psid_bits = bit_and field psid_mask
  let translated = psid_to_staging cfg mask r psid_val
  if psid_bits == cfg.psid then (translated >>= λ staging_val. ok (some staging_val)) else ok none

-- ingress.rs: `none` for a value of the excluded block, or of another PSID.
unfoldable pub ingress_value : PsidConfig → ℕ → Res Unit (Option ℕ)
ingress_value cfg psid_val = do
  mask ← block_mask cfg
  shift ← sub_checked 16 cfg.offset
  r ← shr_checked 16 psid_val shift
  if r == 0 then ok none else own_psid_to_staging cfg mask r psid_val
