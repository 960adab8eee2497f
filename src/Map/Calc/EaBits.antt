-- ===== src/Map/Calc/EaBits.antt =====
-- `extract_ea_bits` and `derive_ipv4_and_psid` (src/map/calc.rs) as arithmetic.
use mapecd.Common.{
  ℕ, ◌+◌, ◌-◌, ◌/◌, ◌%◌, ◌^◌, ◌≤◌, ◌<◌, ◌≡◌, ◌≢◌, refl, ap, arith, ok, err, bit_or, bit_and_mask,
  bit_or_fields, pow_pos, pow-add, sub_checked, shl_checked, shr_checked,
}
use native.Mathlib.Nat.{pow-le-pow_right, mod-lt, div-lt_iff_lt-mul}
use native.Mathlib.Decide.{ℕ_discrete}
use mapecd.Map.Net.{Ipnet}
use mapecd.Map.Rule.{invalid_ce_prefix, MapRule}
use mapecd.Map.Calc.{ea_bits_of, extract_ea_bits, psid_mask_of, derive_ipv4_and_psid}
use mapecd.Map.Calc.WellFormed.{IsWellFormed}

pub pow_mono : (m n : ℕ) → m ≤ n → 2 ^ m ≤ 2 ^ n
pow_mono m n h = pow-le-pow_right {n = 2} (omega arith) {i = m} {j = n} h

module _ (I : Ipnet) (rule : MapRule I) (v : IsWellFormed I rule) where
  -- The EA-bits of a CE prefix: the bits behind the rule's prefix.
  abbrev pub ea_field : ℕ → ℕ
  ea_field addr =
      addr / 2 ^ (128 - I.prefix_len6 rule.ipv6_prefix - rule.ea_length) % 2 ^ rule.ea_length

  pub ea_field_fits : (addr : ℕ) → ea_field addr < 2 ^ rule.ea_length
  ea_field_fits addr = mod-lt _ (pow_pos rule.ea_length)

  ea_bits_of_value :
      (ce : I.Ipv6Net)
      → rule.ea_length ≢ 0
      → ea_bits_of I ce (I.prefix_len6 rule.ipv6_prefix) rule.ea_length
        ≡ ok (ea_field (I.network6 ce))
  unfolding ea_bits_of sub_checked shl_checked shr_checked
  ea_bits_of_value ce some_bits =
      let r = I.prefix_len6 rule.ipv6_prefix in
      let ea = rule.ea_length in
      let width = pow_mono ea 64 (omega (arith, v.prefix_fits)) in
      let mask = bit_and_mask ea (I.network6 ce / 2 ^ (128 - r - ea)) in
      let fits = ea_field_fits (I.network6 ce) in ground (arith, v.prefix_fits, pow_pos ea)

  -- A CE prefix of the right length yields its EA-bits.
  pub extract_ea_bits_value :
      (ce : I.Ipv6Net)
      → I.prefix_len6 ce ≡ I.prefix_len6 rule.ipv6_prefix + rule.ea_length
      → extract_ea_bits I ce rule ≡ ok (ea_field (I.network6 ce))
  unfolding extract_ea_bits
  extract_ea_bits_value ce len = elim (ℕ_discrete rule.ea_length 0) [
    | yes none_left ↦
        let one : 2 ^ rule.ea_length ≡ 1 = ap (λ (t : ℕ). 2 ^ t) none_left in
        ground (arith, ea_field_fits (I.network6 ce))
    | no some_bits ↦ ground (arith, ea_bits_of_value ce some_bits)
  ]

  pub extract_ea_bits_mismatch :
      (ce : I.Ipv6Net)
      → I.prefix_len6 ce ≢ I.prefix_len6 rule.ipv6_prefix + rule.ea_length
      → extract_ea_bits I ce rule ≡ err invalid_ce_prefix
  unfolding extract_ea_bits
  extract_ea_bits_mismatch ce len = ground arith

  mask_value : psid_mask_of rule.port_params.psid_length ≡ ok (2 ^ rule.port_params.psid_length - 1)
  unfolding psid_mask_of sub_checked shl_checked
  mask_value =
      let k = rule.port_params.psid_length in
      let width = pow_mono k 16 (omega (arith, v.port_fits)) in
      elim (ℕ_discrete k 0) [
        | yes zero_bits ↦ rw zero_bits refl
        | no some_bits ↦ ground (arith, v.port_fits, pow_pos k)
      ]

  pub suffix_value :
      (ea : ℕ) → ea < 2 ^ rule.ea_length → ea / 2 ^ rule.port_params.psid_length < 2 ^ v.host_bits
  suffix_value ea small =
      let k = rule.port_params.psid_length in
      let room = pow_mono rule.ea_length (v.host_bits + k) v.suffix_fits in
      (div-lt_iff_lt-mul (pow_pos k)).1 (omega (arith, pow-add v.host_bits k))

  -- The EA-bits are the IPv4 suffix above the PSID.
  pub derive_value :
      (ea : ℕ)
      → ea < 2 ^ rule.ea_length
      → derive_ipv4_and_psid I ea rule
        ≡ ok (record {
          ipv4 = I.network4 rule.ipv4_prefix + ea / 2 ^ rule.port_params.psid_length;
          psid = ea % 2 ^ rule.port_params.psid_length;
        })
  unfolding derive_ipv4_and_psid shr_checked
  derive_value ea small =
      let k = rule.port_params.psid_length in
      let suffix = ea / 2 ^ k in
      let below = suffix_value ea small in
      let joined : bit_or (I.network4 rule.ipv4_prefix) suffix
          ≡ I.network4 rule.ipv4_prefix + suffix =
        rw v.network_value (bit_or_fields v.host_bits v.ipv4_network suffix below) in
      let width = pow_mono k 16 (omega (arith, v.port_fits)) in
      rw mask_value
        (ground (arith, v.network_fits, v.port_fits, bit_and_mask k ea, mod-lt ea (pow_pos k)))
