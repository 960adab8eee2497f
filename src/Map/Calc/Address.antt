-- ===== src/Map/Calc/Address.antt =====
-- What `compute_mape_params` (src/map/calc.rs) answers for a well-formed rule.
use mapecd.Common.{
  ℕ, ◌+◌, ◌-◌, ◌*◌, ◌/◌, ◌%◌, ◌^◌, ◌≤◌, ◌<◌, ◌≡◌, ◌≢◌, refl, ap, ◌∙◌, arith, ok, err, List, pow_pos,
  pow-add, div_of_parts,
}
use native.Mathlib.Nat.{mod-lt, div-add-mod'}
use mapecd.Map.Net.{Ipnet, IsIpv6}
use mapecd.Map.Rule.{invalid_ce_prefix, CeFormat, rfc7597, v6plus, PortRange, MapRule}
use mapecd.Map.Calc.{octet, build_format, build_ce_ipv6, compute_mape_params}
use mapecd.Map.PortSet.Allocation.{IsPortSet, calc_port_ranges-IsPortSet}
use mapecd.Map.Calc.WellFormed.{IsWellFormed}
use mapecd.Map.Calc.EaBits.{
  ea_field, ea_field_fits, extract_ea_bits_value, extract_ea_bits_mismatch, derive_value,
  suffix_value,
}
use mapecd.Map.Calc.Layout.{prefix_part, build_rfc7597_value, build_v6plus_value}

-- The CE address, as the documentation of `CeFormat` lays it out, above a prefix that leaves the
-- last 64 bits free.
abbrev pub ce_address : CeFormat → ℕ → ℕ → ℕ → ℕ → ℕ
ce_address rfc7597 network ipv4 psid k = network + ipv4 * 2 ^ 16 + psid * 2 ^ (16 - k)
ce_address v6plus network ipv4 psid k =
    network
    + octet ipv4 0 * 2 ^ 48
    + octet ipv4 1 * 2 ^ 40
    + octet ipv4 2 * 2 ^ 32
    + octet ipv4 3 * 2 ^ 24
    + psid * 2 ^ 8

-- v6plus is laid out for a PSID of 8 bits.
abbrev pub FormatFits : CeFormat → ℕ → Type 0
FormatFits rfc7597 k = Unit
FormatFits v6plus k = k ≡ 8

build_format_value :
    (format : CeFormat) (g ipv4 psid n k : ℕ)
    → FormatFits format k
    → ipv4 < 2 ^ 32
    → psid < 2 ^ k
    → n ≤ 64
    → k ≤ 16
    → build_format format (g * 2 ^ 64) ipv4 psid n k
      ≡ ok (ce_address format (g * 2 ^ 64) ipv4 psid k)
unfolding build_format
build_format_value rfc7597 g ipv4 psid n k fit h p hn hk = build_rfc7597_value g ipv4 psid k h p hk
build_format_value v6plus g ipv4 psid n k fit h p hn hk =
    let p8 : psid < 2 ^ 8 = rw fit at p in rw fit (build_v6plus_value g ipv4 psid n h p8 hn)

module _ (I : Ipnet) (law : IsIpv6 I) (rule : MapRule I) (v : IsWellFormed I rule) (ce : I.Ipv6Net)
    (len : I.prefix_len6 ce ≡ I.prefix_len6 rule.ipv6_prefix + rule.ea_length) where
  -- The network address is a multiple of what lies behind the prefix.
  network_multiple :
      I.network6 ce ≡ I.addr6 ce / 2 ^ (128 - I.prefix_len6 ce) * 2 ^ (128 - I.prefix_len6 ce)
  network_multiple = law.network_value ce

  pub network_upper :
      (g : ℕ) × (I.network6 ce ≡ g * 2 ^ 64)
      × (I.network6 ce < 2 ^ 128)
      × (I.network6 ce
            / 2 ^ (128 - (I.prefix_len6 rule.ipv6_prefix + rule.ea_length))
            * 2 ^ (128 - (I.prefix_len6 rule.ipv6_prefix + rule.ea_length))
          ≡ I.network6 ce)
  network_upper =
      let n = I.prefix_len6 rule.ipv6_prefix + rule.ea_length in
      let s = 2 ^ (128 - n) in
      let h = I.addr6 ce / s in
      let value : I.network6 ce ≡ h * s = rw len at network_multiple in
      let split : 128 - n ≡ 64 - n + 64 = omega (arith, v.prefix_fits) in
      let room : s ≡ 2 ^ (64 - n) * 2 ^ 64 = ap (λ (t : ℕ). 2 ^ t) split ∙ pow-add (64 - n) 64 in
      let scaled : h * s ≡ h * (2 ^ (64 - n) * 2 ^ 64) = ap (λ (t : ℕ). h * t) room in
      let spread : h * (2 ^ (64 - n) * 2 ^ 64) ≡ h * 2 ^ (64 - n) * 2 ^ 64 = omega arith in
      let below = div-add-mod' (I.addr6 ce) s in
      let fits = law.addr_fits ce in
      let quotient : (h * s + 0) / s ≡ h = div_of_parts s h 0 (pow_pos (128 - n)) in
      let plain : h * s + 0 ≡ h * s = omega arith in
      let again : h * s / s ≡ h = rw plain at quotient in
      (
        h * 2 ^ (64 - n),
        value ∙ scaled ∙ spread,
        omega (arith, value, below, fits),
        rw value (ap (λ (t : ℕ). t * s) again),
      )

  -- The PSID of the CE and its address.
  abbrev pub ce_ea : ℕ
  ce_ea = ea_field I rule v (I.network6 ce)

  abbrev pub ce_ipv4_suffix : ℕ
  ce_ipv4_suffix = ce_ea / 2 ^ rule.port_params.psid_length

  abbrev pub ce_psid : ℕ
  ce_psid = ce_ea % 2 ^ rule.port_params.psid_length

  abbrev pub ce_ipv4 : ℕ
  ce_ipv4 = I.network4 rule.ipv4_prefix + ce_ipv4_suffix

  ce_ipv4_fits : ce_ipv4 < 2 ^ 32
  ce_ipv4_fits =
      let below = suffix_value I rule v ce_ea (ea_field_fits I rule v (I.network6 ce)) in
      omega (arith, v.network_fits)

  build_ce_ipv6_value :
      (format : CeFormat)
      → FormatFits format rule.port_params.psid_length
      → build_ce_ipv6 I ce rule ce_ea format
        ≡ ok (ce_address format (I.network6 ce) ce_ipv4 ce_psid rule.port_params.psid_length)
  unfolding build_ce_ipv6
  build_ce_ipv6_value format fit =
      let k = rule.port_params.psid_length in
      let n = I.prefix_len6 rule.ipv6_prefix + rule.ea_length in
      let (g, value, fits, whole) = network_upper in
      let (mask, mask_ok, cut) =
        prefix_part n (I.network6 ce) (omega (arith, v.prefix_fits)) fits in
      let derived = derive_value I rule v ce_ea (ea_field_fits I rule v (I.network6 ce)) in
      let placed =
        build_format_value format g ce_ipv4 ce_psid n k fit ce_ipv4_fits (mod-lt ce_ea (pow_pos k))
          v.prefix_fits (omega (arith, v.port_fits)) in
      let moved = rw value at placed in rw (derived, mask_ok, cut, whole, value) moved

  -- The identity of a CE: of a well-formed rule, a delegated prefix as long as the rule's prefix with
  -- the EA-bits, and a format that the PSID's width fits, `compute_mape_params` returns the IPv4
  -- suffix and the PSID that the EA-bits hold, the CE address of the format, and the port set.
  pub compute_mape_params_value :
      (format : CeFormat)
      → FormatFits format rule.port_params.psid_length
      → (ranges : List PortRange) × (compute_mape_params I ce rule format
          ≡ ok (record {
            ce_ipv6 =
                ce_address format (I.network6 ce) ce_ipv4 ce_psid rule.port_params.psid_length;
            ipv4 = ce_ipv4;
            psid = ce_psid;
            port_ranges = ranges;
            br_address = rule.br_address;
            rule = rule;
            ce_format = format;
          }))
        × IsPortSet rule.port_params.psid_offset rule.port_params.psid_length ce_psid ranges
  unfolding compute_mape_params
  compute_mape_params_value format fit =
      let k = rule.port_params.psid_length in
      let found = extract_ea_bits_value I rule v ce len in
      let derived = derive_value I rule v ce_ea (ea_field_fits I rule v (I.network6 ce)) in
      let built = build_ce_ipv6_value format fit in
      let (ranges, listed, set) =
        calc_port_ranges-IsPortSet rule.port_params.psid_offset k ce_psid v.port_fits
          (mod-lt ce_ea (pow_pos k)) in
      (ranges, rw (found, derived, built, listed) refl, set)

-- A delegated prefix of another length is refused.
pub compute_mape_params_mismatch :
    (I : Ipnet) (rule : MapRule I) (v : IsWellFormed I rule) (ce : I.Ipv6Net) (format : CeFormat)
    → I.prefix_len6 ce ≢ I.prefix_len6 rule.ipv6_prefix + rule.ea_length
    → compute_mape_params I ce rule format ≡ err invalid_ce_prefix
unfolding compute_mape_params
compute_mape_params_mismatch I rule v ce format len =
    rw (extract_ea_bits_mismatch I rule v ce len) refl
