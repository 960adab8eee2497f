-- ===== src/Map/Calc/Identity.antt =====
-- Customers of one rule: what distinguishes the identities that src/map/calc.rs computes.
use mapecd.Common.{
  Has, ℕ, ◌+◌, ◌-◌, ◌*◌, ◌/◌, ◌%◌, ◌^◌, ◌<◌, ◌≡◌, refl, ap, sym, ◌∙◌, List, arith, ok, true,
  pow_pos, pow-add, mod_of_parts, div_of_parts, ok-injective,
}
use native.Mathlib.Nat.{mod-lt, div-add-mod', div-div-eq-div-mul}
use mapecd.Map.Net.{Ipnet, IsIpv6}
use mapecd.Map.Rule.{CeFormat, PortRange, MapRule, MapeParams}
use mapecd.Map.Calc.{compute_mape_params}
use mapecd.Map.PortSet.Merge.{expand}
use mapecd.Map.PortSet.Ports.{formula}
use mapecd.Map.PortSet.Allocation.{IsPortSet}
use mapecd.Map.Calc.WellFormed.{IsWellFormed}
use mapecd.Map.Calc.EaBits.{ea_field}
use mapecd.Map.Calc.Address.{FormatFits, compute_mape_params_value}

formula_psid : (a k psid r j : ℕ) → psid < 2 ^ k → formula a k psid r j % 2 ^ k ≡ psid
formula_psid a k psid r j small =
    let high : r * 2 ^ (a + k) ≡ r * 2 ^ a * 2 ^ k = rw pow-add (omega arith) in
    let whole : formula a k psid r j ≡ (r * 2 ^ a + j) * 2 ^ k + psid = omega (arith, high) in
    rw whole (mod_of_parts (2 ^ k) (r * 2 ^ a + j) psid small)

-- The PSID can be read off every port of a port set.
psid_of_port :
    (a k psid p : ℕ) {ranges : List PortRange}
    → psid < 2 ^ k
    → IsPortSet a k psid ranges
    → Has p (expand ranges)
    → p % 2 ^ k ≡ psid
psid_of_port a k psid p small set has =
    let (r, j, _, _, _, e) = (set.members p).0 has in rw e (formula_psid a k psid r j small)

-- A number by its quotient and remainder.
same_parts : (q x y : ℕ) → x / q ≡ y / q → x % q ≡ y % q → x ≡ y
same_parts q x y high low =
    omega (arith, div-add-mod' x q, div-add-mod' y q, ap (λ (t : ℕ). t * q) high)

module _ (I : Ipnet) (law : IsIpv6 I) (rule : MapRule I) (v : IsWellFormed I rule) where
  -- The network number of the rule's prefix.
  abbrev rule_number : ℕ
  rule_number = I.addr6 rule.ipv6_prefix / 2 ^ (128 - I.prefix_len6 rule.ipv6_prefix)

  -- What the network address of a customer's prefix is made of.
  network_parts :
      (ce : I.Ipv6Net)
      → I.prefix_len6 ce ≡ I.prefix_len6 rule.ipv6_prefix + rule.ea_length
      → I.contains6 rule.ipv6_prefix (I.addr6 ce) ≡ true
      → I.network6 ce
        ≡ (rule_number * 2 ^ rule.ea_length + ea_field I rule v (I.network6 ce))
          * 2 ^ (128 - (I.prefix_len6 rule.ipv6_prefix + rule.ea_length))
  network_parts ce len inside =
      let r = I.prefix_len6 rule.ipv6_prefix in
      let ea = rule.ea_length in
      let s = 2 ^ (128 - (r + ea)) in
      let h = I.addr6 ce / s in
      let value : I.network6 ce ≡ h * s = rw len at (law.network_value ce) in
      let shift : 128 - r - ea ≡ 128 - (r + ea) = omega (arith, v.prefix_fits) in
      let split : 128 - r ≡ 128 - (r + ea) + ea = omega (arith, v.prefix_fits) in
      let room : 2 ^ (128 - r) ≡ s * 2 ^ ea =
        ap (λ (t : ℕ). 2 ^ t) split ∙ pow-add (128 - (r + ea)) ea in
      let same = (law.contains_iff rule.ipv6_prefix (I.addr6 ce)).0 inside in
      let deep : h / 2 ^ ea ≡ I.addr6 ce / 2 ^ (128 - r) =
        rw room (div-div-eq-div-mul (I.addr6 ce) s (2 ^ ea)) in
      let plain : h * s + 0 ≡ h * s = omega arith in
      let quotient : h * s / s ≡ h = rw plain at (div_of_parts s h 0 (pow_pos (128 - (r + ea)))) in
      let field : I.network6 ce / 2 ^ (128 - r - ea) % 2 ^ ea ≡ h % 2 ^ ea =
        rw (shift, value, quotient) refl in
      let parts : h / 2 ^ ea * 2 ^ ea + h % 2 ^ ea ≡ h = div-add-mod' h (2 ^ ea) in
      let high : rule_number ≡ h / 2 ^ ea = sym same ∙ sym deep in rw (field, high, parts) value

  -- Two customers of one rule do not share a port of one address: where the identities computed for
  -- two delegated prefixes below a well-formed rule's prefix, both of the length that it asks for,
  -- have the same IPv4 address, and some port is in both port sets, the two prefixes are the same
  -- network.
  pub no_shared_port :
      (format : CeFormat) (ce ce' : I.Ipv6Net) {p p' : MapeParams I}
      → FormatFits format rule.port_params.psid_length
      → I.prefix_len6 ce ≡ I.prefix_len6 rule.ipv6_prefix + rule.ea_length
      → I.prefix_len6 ce' ≡ I.prefix_len6 rule.ipv6_prefix + rule.ea_length
      → I.contains6 rule.ipv6_prefix (I.addr6 ce) ≡ true
      → I.contains6 rule.ipv6_prefix (I.addr6 ce') ≡ true
      → compute_mape_params I ce rule format ≡ ok p
      → compute_mape_params I ce' rule format ≡ ok p'
      → p.ipv4 ≡ p'.ipv4
      → (port : ℕ) → Has port (expand p.port_ranges)
      → Has port (expand p'.port_ranges)
      → I.network6 ce ≡ I.network6 ce'
  no_shared_port format ce ce' {p} {p'} fit len len' inside inside' made made' same_ipv4 port has
        has' =
      let k = rule.port_params.psid_length in
      let (ranges, value, set) = compute_mape_params_value I law rule v ce len format fit in
      let (ranges', value', set') = compute_mape_params_value I law rule v ce' len' format fit in
      let e = ok-injective (sym made ∙ value) in
      let e' = ok-injective (sym made' ∙ value') in
      let member : Has port (expand ranges) = rw e at has in
      let member' : Has port (expand ranges') = rw e' at has' in
      let ea = ea_field I rule v (I.network6 ce) in
      let ea' = ea_field I rule v (I.network6 ce') in
      let psid =
        psid_of_port rule.port_params.psid_offset k (ea % 2 ^ k) port (mod-lt ea (pow_pos k)) set
          member in
      let psid' =
        psid_of_port rule.port_params.psid_offset k (ea' % 2 ^ k) port (mod-lt ea' (pow_pos k)) set'
          member' in
      let ipv4 = ap (λ (q : MapeParams I). q.ipv4) e in
      let ipv4' = ap (λ (q : MapeParams I). q.ipv4) e' in
      let high : ea / 2 ^ k ≡ ea' / 2 ^ k = omega arith in
      let same = same_parts (2 ^ k) ea ea' high (sym psid ∙ psid') in
      let parts' = network_parts ce' len' inside' in
      network_parts ce len inside ∙ rw same (sym parts')
