-- ===== src/Tests/Static.antt =====
-- Runs of the theorems on src/map/v6plus_rules.rs.
use mapecd.Common.{
  ◌*◌, ◌^◌, ◌≡◌, refl, arith, length, All, Has, inl, List, [], true, ok, err, panic,
}
use native.Mathlib.Nat.{mod-eq_of_lt}
use mapecd.Map.V6plus.Table.{v6plus_map_rules, rule_count}
use mapecd.Map.V6plus.Checks.{count_rows}
use mapecd.Map.V6plus.Usable.{IsNew, has_narrow_psid, IsUsableRow, static_rules_panic}
use mapecd.Map.Rule.{MapRule, v6plus}
use mapecd.Map.V6plus.Row.{Row, entry, br_275, ports_8, rule_of}
use mapecd.Daemon.State.{try_rules}
use mapecd.Daemon.Start.{rules_of_rows}
use mapecd.Daemon.Start.Static.{only_by, static_rules_choice}
use mapecd.Tests.Network.{networks, networks-IsIpv6}

networks-IsNew : IsNew networks
networks-IsNew = record {
  new6_value = λ addr len fits short. ((addr, len), ground arith, mod-eq_of_lt fits, omega arith);
  new4_value = λ addr len fits short. ((addr, len), ground arith, refl);
}

static_rules_panic_example :
    (length v6plus_map_rules ≡ rule_count)
    × (count_rows has_narrow_psid v6plus_map_rules ≡ 428)
    × All (IsUsableRow networks) v6plus_map_rules
static_rules_panic_example = static_rules_panic networks networks-IsIpv6 networks-IsNew

abbrev rules : List (MapRule networks)
rules = elim (rules_of_rows networks v6plus_map_rules) [ ok made ↦ made | err _ ↦ [] | panic ↦ [] ]

rules_made : rules_of_rows networks v6plus_map_rules ≡ ok rules
unfolding rules_of_rows v6plus_map_rules rule_of
rules_made = refl

abbrev row : Row
row = entry 0x2404 0x7a82 0x0000 38 125 196 208 0 22 18 br_275 ports_8

row_listed : Has row v6plus_map_rules
unfolding v6plus_map_rules
row_listed = inl refl

abbrev rule : MapRule networks
rule = record {
  ipv6_prefix = (row.addr6, 38);
  ipv4_prefix = (row.addr4, 22);
  ea_length = 18;
  is_fmr = true;
  br_address = br_275;
  port_params = ports_8;
}

rule_made : rule_of networks row ≡ ok rule
unfolding rule_of
rule_made = refl

static_rules_choice_example :
    try_rules networks (0x24047a8200120034 * 2 ^ 64, 56) v6plus rules
    ≡ only_by networks (0x24047a8200120034 * 2 ^ 64, 56) v6plus rule
static_rules_choice_example =
    static_rules_choice networks networks-IsIpv6 networks-IsNew v6plus_map_rules rules row rule
      (0x24047a8200120034 * 2 ^ 64, 56) v6plus (λ test. refl) rules_made row_listed rule_made refl
