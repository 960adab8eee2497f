-- ===== src/Tests/Rules.antt =====
-- Runs of the theorems on src/map.
use mapecd.Common.{
  Has, ℕ, ◌+◌, ◌*◌, ◌/◌, ◌^◌, ◌<◌, ◌≡◌, ◌↔◌, ltb, ◌==◌, if◌then◌else◌, panic, inl, inr, refl, arith,
  false, List, [], ◌∷◌, ok, err, sub_checked, shl_checked, shr_checked, add_checked, mul_checked,
}
use mapecd.Psid.{try_new, refused}
use mapecd.Psid.Geometry.{pass_all, expected, try_new_answers}
use mapecd.Ebpf.Fields.{IsOwnPort}
use mapecd.Map.Rule.{rfc7597, v6plus, PortRange, MapRule, MapeParams}
use mapecd.Map.Calc.{
  compute_mape_params, extract_ea_bits, ea_bits_of, derive_ipv4_and_psid, psid_mask_of,
  build_ce_ipv6, prefix_mask_of, build_format, build_rfc7597, place_psid,
}
use mapecd.Map.PortSet.{port, ports_of_r, ports_from, is_next, merge_from, merge, calc_port_ranges}
use mapecd.Map.PortSet.Merge.{expand, range_ports, count_from}
use mapecd.Map.PortSet.Allocation.{
  IsPortSet, calc_port_ranges-IsPortSet, calc_port_ranges-eq-panic_iff, calc_port_ranges_not_own,
}
use mapecd.Map.Calc.WellFormed.{IsWellFormed}
use mapecd.Map.Calc.Address.{ce_address, compute_mape_params_value}
use mapecd.Map.Calc.Identity.{no_shared_port}
use mapecd.Tests.Network.{networks, networks-IsIpv6}

-- 2001:db8::/40 for 192.0.2.0/24, with the widths of v6plus.
abbrev pub rule : MapRule networks
rule = record {
  ipv6_prefix = (0x20010db8 * 2 ^ 96, 40);
  ipv4_prefix = (0xC0000200, 24);
  ea_length = 16;
  is_fmr = false;
  br_address = 0x20010db8 * 2 ^ 96 + 1;
  port_params = record { psid_offset = 4; psid_length = 8 };
}

-- 192.0.2.0/30 with PSIDs of 14 bits, of two ports each.
abbrev pub small_rule : MapRule networks
small_rule = record {
  ipv6_prefix = (0x20010db8 * 2 ^ 96, 40);
  ipv4_prefix = (0xC0000200, 30);
  ea_length = 16;
  is_fmr = false;
  br_address = 0x20010db8 * 2 ^ 96 + 1;
  port_params = record { psid_offset = 1; psid_length = 14 };
}

rule-IsWellFormed : IsWellFormed networks rule
rule-IsWellFormed = record {
  prefix_fits = omega arith;
  port_fits = omega arith;
  psid_in_ea = omega arith;
  host_bits = 8;
  ipv4_network = 0xC00002;
  network_value = refl;
  network_fits = omega arith;
  suffix_fits = omega arith;
}

pub small_rule-IsWellFormed : IsWellFormed networks small_rule
small_rule-IsWellFormed = record {
  prefix_fits = omega arith;
  port_fits = omega arith;
  psid_in_ea = omega arith;
  host_bits = 2;
  ipv4_network = 0xC0000200 / 4;
  network_value = refl;
  network_fits = omega arith;
  suffix_fits = omega arith;
}

-- 2001:db8:12:3400::/56, and an address below 2001:db8:52:3400::/56.
abbrev ce : ℕ × ℕ
ce = (0x20010db800123400 * 2 ^ 64, 56)

abbrev pub other_ce : ℕ × ℕ
other_ce = (0x20010db800523400 * 2 ^ 64, 56)

abbrev other_ce_host : ℕ × ℕ
other_ce_host = (0x20010db800523400 * 2 ^ 64 + 1, 56)

abbrev pub small_params : MapeParams networks
small_params = record {
  ce_ipv6 = 0x20010db800523400 * 2 ^ 64 + 0xC0000201 * 2 ^ 16 + 0x1234 * 4;
  ipv4 = 0xC0000201;
  psid = 0x1234;
  port_ranges =
      record { start = 0x9234; last = 0x9234 } ∷ record { start = 0xD234; last = 0xD234 } ∷ [];
  br_address = 0x20010db8 * 2 ^ 96 + 1;
  rule = small_rule;
  ce_format = rfc7597;
}

computed : compute_mape_params networks other_ce small_rule rfc7597 ≡ ok small_params
unfolding compute_mape_params extract_ea_bits ea_bits_of derive_ipv4_and_psid psid_mask_of
    build_ce_ipv6 prefix_mask_of build_format build_rfc7597 place_psid calc_port_ranges port
    ports_of_r ports_from is_next merge_from merge sub_checked shl_checked shr_checked
computed = refl

computed_host : compute_mape_params networks other_ce_host small_rule rfc7597 ≡ ok small_params
unfolding compute_mape_params extract_ea_bits ea_bits_of derive_ipv4_and_psid psid_mask_of
    build_ce_ipv6 prefix_mask_of build_format build_rfc7597 place_psid calc_port_ranges port
    ports_of_r ports_from is_next merge_from merge sub_checked shl_checked shr_checked
computed_host = refl

listed_port : Has 0xD234 (expand small_params.port_ranges)
unfolding expand range_ports count_from
listed_port = inr (inl refl)

compute_mape_params_value_example :
    (ranges : List PortRange) × (compute_mape_params networks ce rule v6plus
      ≡ ok (record {
        ce_ipv6 = ce_address v6plus (0x20010db800123400 * 2 ^ 64) 0xC0000212 0x34 8;
        ipv4 = 0xC0000212;
        psid = 0x34;
        port_ranges = ranges;
        br_address = 0x20010db8 * 2 ^ 96 + 1;
        rule = rule;
        ce_format = v6plus;
      }))
    × IsPortSet 4 8 0x34 ranges
compute_mape_params_value_example =
    compute_mape_params_value networks networks-IsIpv6 rule rule-IsWellFormed ce refl v6plus refl

no_shared_port_example : networks.network6 other_ce ≡ networks.network6 other_ce_host
no_shared_port_example =
    no_shared_port networks networks-IsIpv6 small_rule small_rule-IsWellFormed rfc7597 other_ce
      other_ce_host tt refl refl refl refl computed computed_host refl 0xD234 listed_port
      listed_port

calc_port_ranges-IsPortSet_example :
    (ranges : List PortRange) × (calc_port_ranges (record { psid_offset = 4; psid_length = 8 }) 0x34
      ≡ ok ranges)
    × IsPortSet 4 8 0x34 ranges
calc_port_ranges-IsPortSet_example = calc_port_ranges-IsPortSet 4 8 0x34 (omega arith) (omega arith)

calc_port_ranges-eq-panic_iff_example :
    (calc_port_ranges (record { psid_offset = 12; psid_length = 8 }) 0 ≡ panic) ↔ (16 < 12 + 8)
calc_port_ranges-eq-panic_iff_example =
    calc_port_ranges-eq-panic_iff (record { psid_offset = 12; psid_length = 8 }) 0

own_config_made :
    try_new 4 8 0x34
    ≡ ok (record {
      offset = 4;
      length = 8;
      block_shift = 4;
      psid = 0x34;
      staging_min = 4096;
      staging_max = 4335;
    })
unfolding try_new add_checked sub_checked mul_checked shl_checked
own_config_made = refl

set_of :
    (ranges : List PortRange) × (calc_port_ranges (record { psid_offset = 4; psid_length = 8 }) 0x34
      ≡ ok ranges)
    × IsPortSet 4 8 0x34 ranges
set_of = calc_port_ranges-IsPortSet 4 8 0x34 (omega arith) (omega arith)

first_listed : Has 4148 (expand set_of.0)
first_listed =
    let set = set_of.2 in (set.members 4148).1 (1, 0, omega arith, omega arith, omega arith, refl)

calc_port_ranges_not_own_example :
    ¬ IsOwnPort
      (record {
        offset = 4;
        length = 8;
        block_shift = 4;
        psid = 0x34;
        staging_min = 4096;
        staging_max = 4335;
      })
      4148
calc_port_ranges_not_own_example =
    calc_port_ranges_not_own 0x34 (omega arith) (omega arith) own_config_made set_of.1 4148
      first_listed

try_new_answers_example : try_new 12 8 0x34 ≡ (
    if ltb 16 (12 + 8)
    then err refused
    else if 12 == 0
    then ok (pass_all 8 0x34)
    else ok (expected 12 8 0x34))
try_new_answers_example = try_new_answers 12 8 0x34
