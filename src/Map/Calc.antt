-- ===== src/Map/Calc.antt =====
-- src/map/calc.rs.
pub mod WellFormed
pub mod EaBits
pub mod Layout
pub mod Address
pub mod Identity
use mapecd.Common.{
  ℕ, ◌+◌, ◌-◌, ◌*◌, ◌/◌, ◌%◌, ◌^◌, ◌==◌, leb, ltb, if◌then◌else◌, bit_and, bit_or, ◌&&◌, Res, ok,
  err, panic, ◌>>=◌, sub_checked, shl_checked, shr_checked,
}
use mapecd.Map.Net.{Ipnet}
use mapecd.Map.Rule.{
  MapeError, invalid_ce_prefix, CeFormat, rfc7597, v6plus, PortParams, MapRule, MapeParams,
}
use mapecd.Map.PortSet.{calc_port_ranges}

-- What `derive_ipv4_and_psid` returns.
pub record Ipv4Psid : Type 0 where
  pub ipv4 : ℕ
  pub psid : ℕ

-- `psid_mask` of `derive_ipv4_and_psid`
unfoldable pub psid_mask_of : ℕ → Res MapeError ℕ
psid_mask_of k = if k == 0 then ok 0 else (shl_checked 64 1 k >>= λ ones. sub_checked ones 1)

-- `prefix_mask` of `build_ce_ipv6`
unfoldable pub prefix_mask_of : ℕ → Res MapeError ℕ
prefix_mask_of r_plus_ea =
    if r_plus_ea == 0
    then ok 0
    else (sub_checked 128 r_plus_ea >>= λ shift. shl_checked 128 (2 ^ 128 - 1) shift)

-- `addr |= (psid as u128) << (16 - k)`
unfoldable pub place_psid : ℕ → ℕ → ℕ → Res MapeError ℕ
place_psid addr psid k = do
  shift ← sub_checked 16 k
  low ← shl_checked 128 psid shift
  ok (bit_or addr low)

-- The arm `CeFormat::Rfc7597`; `addr` holds the prefix.
unfoldable pub build_rfc7597 : ℕ → ℕ → ℕ → ℕ → Res MapeError ℕ
build_rfc7597 addr ipv4 psid k = do
  high ← shl_checked 128 ipv4 16
  let with_ipv4 = bit_or addr high
  if ltb 0 k then place_psid with_ipv4 psid k else ok with_ipv4

-- `ipv4.octets()[i]`
unfoldable pub octet : ℕ → ℕ → ℕ
octet ipv4 i = ipv4 / 2 ^ (8 * (3 - i)) % 2 ^ 8

-- The arm `CeFormat::V6Plus` behind its assertions.
unfoldable pub place_v6plus : ℕ → ℕ → ℕ → Res MapeError ℕ
place_v6plus addr ipv4 psid = do
  first ← shl_checked 128 (octet ipv4 0) 48
  second ← shl_checked 128 (octet ipv4 1) 8
  middle ← shl_checked 128 (bit_or second (octet ipv4 2)) 32
  fourth ← shl_checked 128 (octet ipv4 3) 24
  low ← shl_checked 128 psid 8
  ok (bit_or (bit_or (bit_or (bit_or addr first) middle) fourth) low)

-- The arm `CeFormat::V6Plus`: a failed `debug_assert!` panics.
unfoldable pub build_v6plus : ℕ → ℕ → ℕ → ℕ → ℕ → Res MapeError ℕ
build_v6plus addr ipv4 psid r_plus_ea k =
    if leb r_plus_ea 64 && k == 8 then place_v6plus addr ipv4 psid else panic

-- `match format`
unfoldable pub build_format : CeFormat → ℕ → ℕ → ℕ → ℕ → ℕ → Res MapeError ℕ
build_format rfc7597 addr ipv4 psid r_plus_ea k = build_rfc7597 addr ipv4 psid k
build_format v6plus addr ipv4 psid r_plus_ea k = build_v6plus addr ipv4 psid r_plus_ea k

module _ (I : Ipnet) where
  open I use {Ipv6Net, network4, network6, prefix_len6}

  -- The part of `extract_ea_bits` behind its early returns.
  unfoldable pub ea_bits_of : Ipv6Net → ℕ → ℕ → Res MapeError ℕ
  ea_bits_of ce_prefix r ea_len = do
    above ← sub_checked 128 r
    shift ← sub_checked above ea_len
    ones ← shl_checked 128 1 ea_len
    mask ← sub_checked ones 1
    addr ← shr_checked 128 (network6 ce_prefix) shift
    ok (bit_and addr mask % 2 ^ 64)

  unfoldable pub extract_ea_bits : Ipv6Net → MapRule I → Res MapeError ℕ
  extract_ea_bits ce_prefix rule =
      let r = prefix_len6 rule.ipv6_prefix in
      let ea_len = rule.ea_length in
      if prefix_len6 ce_prefix == r + ea_len
      then if ea_len == 0 then ok 0 else ea_bits_of ce_prefix r ea_len
      else err invalid_ce_prefix

  unfoldable pub derive_ipv4_and_psid : ℕ → MapRule I → Res MapeError Ipv4Psid
  derive_ipv4_and_psid ea_bits rule = do
    let k = rule.port_params.psid_length
    psid_mask ← psid_mask_of k
    let psid = bit_and ea_bits psid_mask % 2 ^ 16
    suffix ← shr_checked 64 ea_bits k
    let ipv4_suffix = suffix % 2 ^ 32
    ok (record { ipv4 = bit_or (network4 rule.ipv4_prefix) ipv4_suffix; psid = psid })

  unfoldable pub build_ce_ipv6 : Ipv6Net → MapRule I → ℕ → CeFormat → Res MapeError ℕ
  build_ce_ipv6 ce_prefix rule ea_bits format = do
    derived ← derive_ipv4_and_psid ea_bits rule
    let r_plus_ea = prefix_len6 rule.ipv6_prefix + rule.ea_length
    prefix_mask ← prefix_mask_of r_plus_ea
    let addr = bit_and (network6 ce_prefix) prefix_mask
    build_format format addr derived.ipv4 derived.psid r_plus_ea rule.port_params.psid_length

  unfoldable pub compute_mape_params : Ipv6Net → MapRule I → CeFormat → Res MapeError (MapeParams I)
  compute_mape_params ce_prefix rule format = do
    ea_bits ← extract_ea_bits ce_prefix rule
    derived ← derive_ipv4_and_psid ea_bits rule
    ce_ipv6 ← build_ce_ipv6 ce_prefix rule ea_bits format
    port_ranges ← calc_port_ranges rule.port_params derived.psid
    ok (record {
      ce_ipv6 = ce_ipv6;
      ipv4 = derived.ipv4;
      psid = derived.psid;
      port_ranges = port_ranges;
      br_address = rule.br_address;
      rule = rule;
      ce_format = format;
    })
