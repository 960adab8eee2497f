-- ===== src/Tests/Pending.antt =====
-- Runs of the theorems on src/daemon/state.rs.
use mapecd.Common.{ℕ, ◌*◌, ◌^◌, ◌≡◌, ◌⊎◌, refl, arith, true, List, [], ◌∷◌, ok, err, some, none}
use mapecd.Map.Rule.{no_prefix_match, rfc7597, MapRule, MapeParams}
use mapecd.Map.Calc.WellFormed.{IsWellFormed}
use mapecd.Daemon.State.{DaemonState, try_compute}
use mapecd.Daemon.State.Choice.{IsFirst}
use mapecd.Daemon.State.Answers.{NoneServes, try_compute_answers}
use mapecd.Tests.Network.{networks, networks-IsIpv6}
use mapecd.Tests.Rules.{rule, small_rule, small_rule-IsWellFormed, other_ce}

-- Rules in the daemon: the first is for other prefixes.
abbrev far_rule : MapRule networks
far_rule = record rule { ipv6_prefix = (0x20010db9 * 2 ^ 96, 40) }

abbrev rules : List (MapRule networks)
rules = far_rule ∷ small_rule ∷ []

far_rule-IsWellFormed : IsWellFormed networks far_rule
far_rule-IsWellFormed = record {
  prefix_fits = omega arith;
  port_fits = omega arith;
  psid_in_ea = omega arith;
  host_bits = 8;
  ipv4_network = 0xC00002;
  network_value = refl;
  network_fits = omega arith;
  suffix_fits = omega arith;
}

abbrev waiting : DaemonState networks ℕ ℕ
waiting = record {
  pending_map_rules = some rules;
  pending_ia_pd = some other_ce;
  params = none;
  tunnel_ifindex = none;
  original_ip_forward = none;
  original_ipv6_forward = none;
  ebpf = none;
}

try_compute_answers_example :
    ((p : MapeParams networks) × IsFirst networks other_ce rfc7597 rules p
      × (try_compute networks rfc7597 waiting ≡ (ok true, record waiting { params = some p }))
      × (¬ NoneServes networks networks-IsIpv6 other_ce rfc7597 rules))
    ⊎ ((try_compute networks rfc7597 waiting ≡ (err no_prefix_match, waiting))
        × NoneServes networks networks-IsIpv6 other_ce rfc7597 rules)
try_compute_answers_example =
    try_compute_answers networks networks-IsIpv6 other_ce rfc7597 waiting rules refl refl refl
      ((far_rule-IsWellFormed, tt), ((small_rule-IsWellFormed, tt), tt))
