-- ===== src/Map/V6plus/Usable.antt =====
-- The static rules of src/map/v6plus_rules.rs as rules of src/map/calc.rs.
use mapecd.Common.{
  ℕ, ◌+◌, ◌-◌, ◌*◌, ◌/◌, ◌^◌, ◌≤◌, ◌<◌, ◌≡◌, ◌≢◌, ◌||◌, ◌↔◌, refl, arith, Bool, true, ◌&&◌, ltb,
  leb, ◌==◌, ok-ne-panic, length, All, some, ok, panic,
}
use native.Mathlib.Decide.{ℕ_discrete}
use mapecd.Map.Net.{Ipnet, IsIpv6}
use mapecd.Map.Rule.{v6plus, MapRule}
use mapecd.Map.Calc.{build_ce_ipv6, build_format, build_v6plus, compute_mape_params}
use mapecd.Map.Calc.WellFormed.{IsWellFormed}
use mapecd.Map.Calc.EaBits.{ea_field, ea_field_fits, extract_ea_bits_value, derive_value}
use mapecd.Map.Calc.Layout.{prefix_part}
use mapecd.Map.Calc.Address.{network_upper, compute_mape_params_value}
use mapecd.Map.V6plus.Row.{Row, rule_of}
use mapecd.Map.V6plus.Table.{v6plus_map_rules, rule_count}
use mapecd.Map.V6plus.Checks.{count_rows, all_rows, all_rows-All}

-- The documented behaviour of `Ipv4Net::new` and `Ipv6Net::new`: a prefix length that the address has
-- bits for makes the network.
pub record IsNew (I : Ipnet) : Type 0 where
  pub new6_value :
      (addr len : ℕ)
      → addr < 2 ^ 128
      → len ≤ 128
      → (n : I.Ipv6Net) × (I.new6 addr len ≡ some n) × (I.addr6 n ≡ addr) × (I.prefix_len6 n ≡ len)
  pub new4_value :
      (addr len : ℕ)
      → addr < 2 ^ 32
      → len ≤ 32
      → (n : I.Ipv4Net) × (I.new4 addr len ≡ some n)
        × (I.network4 n ≡ addr / 2 ^ (32 - len) * 2 ^ (32 - len))

-- v6plus lays out a PSID of 8 bits, which a `debug_assert!` of `build_ce_ipv6` asks for.
pub other_width_panics :
    (I : Ipnet) (law : IsIpv6 I) (rule : MapRule I) (v : IsWellFormed I rule) (ce : I.Ipv6Net)
    → I.prefix_len6 ce ≡ I.prefix_len6 rule.ipv6_prefix + rule.ea_length
    → rule.port_params.psid_length ≢ 8
    → compute_mape_params I ce rule v6plus ≡ panic
unfolding compute_mape_params build_ce_ipv6 build_format build_v6plus
other_width_panics I law rule v ce len other =
    let n = I.prefix_len6 rule.ipv6_prefix + rule.ea_length in
    let (g, value, fits, whole) = network_upper I law rule v ce len in
    let (mask, mask_ok, cut) = prefix_part n (I.network6 ce) (omega (arith, v.prefix_fits)) fits in
    let ea = ea_field I rule v (I.network6 ce) in
    let found = extract_ea_bits_value I rule v ce len in
    let derived = derive_value I rule v ea (ea_field_fits I rule v (I.network6 ce)) in ground arith

width_8_computes :
    (I : Ipnet) (law : IsIpv6 I) (rule : MapRule I) (v : IsWellFormed I rule) (ce : I.Ipv6Net)
    → I.prefix_len6 ce ≡ I.prefix_len6 rule.ipv6_prefix + rule.ea_length
    → rule.port_params.psid_length ≡ 8
    → compute_mape_params I ce rule v6plus ≢ panic
width_8_computes I law rule v ce len wide e =
    let (ranges, computed, set) = compute_mape_params_value I law rule v ce len v6plus wide in
    ok-ne-panic (rw computed at e)

-- The test that every row passes.
unfoldable pub row_is_usable : Row → Bool
row_is_usable row =
    row.len6 + row.ea_length == 56
    && ltb row.addr6 (2 ^ 128)
    && leb row.len4 32
    && leb (row.addr4 / 2 ^ (32 - row.len4) * 2 ^ (32 - row.len4) + 2 ^ (32 - row.len4)) (2 ^ 32)
    && ltb row.addr4 (2 ^ 32)
    && leb (row.port_params.psid_offset + row.port_params.psid_length) 16
    && leb row.port_params.psid_length row.ea_length
    && row.ea_length == 32 - row.len4 + row.port_params.psid_length
    && (row.port_params.psid_length == 6 || row.port_params.psid_length == 8)

pub rows_are_usable : all_rows row_is_usable v6plus_map_rules ≡ true
unfolding v6plus_map_rules all_rows row_is_usable
rows_are_usable = refl

unfoldable pub has_narrow_psid : Row → Bool
has_narrow_psid row = row.port_params.psid_length == 6

narrow_rows : count_rows has_narrow_psid v6plus_map_rules ≡ 428
unfolding v6plus_map_rules count_rows has_narrow_psid
narrow_rows = refl

rows_counted : length v6plus_map_rules ≡ rule_count
unfolding v6plus_map_rules
rows_counted = refl

module _ (I : Ipnet) where
  -- A row gives a rule of RFC 7597 for customers with 56 bits, which computes except for a PSID of 6
  -- bits.
  pub record IsUsableRow (row : Row) : Type 0 where
    pub rule : MapRule I
    pub made : rule_of I row ≡ ok rule
    pub well_formed : IsWellFormed I rule
    pub customers : I.prefix_len6 rule.ipv6_prefix + rule.ea_length ≡ 56
    pub panics :
        (ce : I.Ipv6Net)
        → I.prefix_len6 ce ≡ 56
        → (compute_mape_params I ce rule v6plus ≡ panic) ↔ (row.port_params.psid_length ≡ 6)

module _ (I : Ipnet) (law : IsIpv6 I) (new : IsNew I) where
  row-IsUsableRow : (row : Row) → row_is_usable row ≡ true → IsUsableRow I row
  unfolding row_is_usable rule_of
  row-IsUsableRow row h =
      let (net6, made6, addr, len) =
        new.new6_value row.addr6 row.len6 (ground arith) (ground arith) in
      let (net4, made4, network) =
        new.new4_value row.addr4 row.len4 (ground arith) (ground arith) in
      let rule : MapRule I = record {
        ipv6_prefix = net6;
        ipv4_prefix = net4;
        ea_length = row.ea_length;
        is_fmr = true;
        br_address = row.br_address;
        port_params = row.port_params;
      } in
      let v : IsWellFormed I rule = record {
        prefix_fits = ground arith;
        port_fits = ground arith;
        psid_in_ea = ground arith;
        host_bits = 32 - row.len4;
        ipv4_network = row.addr4 / 2 ^ (32 - row.len4);
        network_value = network;
        network_fits = ground arith;
        suffix_fits = ground arith;
      } in
      record {
        rule = rule;
        made = ground arith;
        well_formed = v;
        customers = ground arith;
        panics = λ ce long.
            let fits : I.prefix_len6 ce ≡ I.prefix_len6 net6 + row.ea_length = ground arith in
            (
              λ e. elim (ℕ_discrete row.port_params.psid_length 8) [
                | no narrow ↦ ground arith
                | yes wide ↦ absurd (width_8_computes I law rule v ce fits wide e)
              ],
              λ e. other_width_panics I law rule v ce fits (ground arith),
            );
      }

  -- The static table is usable but for its PSIDs: it has 690 rows, each of which makes a well-formed
  -- rule, whose prefix and EA-bits are the 56 bits that the daemon asks of a delegated prefix. For such
  -- a prefix `compute_mape_params` with the format v6plus panics exactly where the row's PSID has 6
  -- bits, which 428 of the rows have.
  pub static_rules_panic :
      (length v6plus_map_rules ≡ rule_count)
      × (count_rows has_narrow_psid v6plus_map_rules ≡ 428)
      × All (IsUsableRow I) v6plus_map_rules
  static_rules_panic = (
    rows_counted,
    narrow_rows,
    all_rows-All row_is_usable (IsUsableRow I) row-IsUsableRow v6plus_map_rules rows_are_usable,
  )
