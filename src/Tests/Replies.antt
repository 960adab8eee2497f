-- ===== src/Tests/Replies.antt =====
-- Runs of the theorems on src/dhcpv6/parser.rs.
use mapecd.Common.{ℕ, ◌≤◌, ◌≡◌, arith, List, [], ◌∷◌, ◌++◌, none, some, err}
use mapecd.Map.Rule.{missing_br_address, default_port_params}
use mapecd.Dhcp.Options.{iter_rounds, iter_opts}
use mapecd.Dhcp.Options.Encoding.{Entry, encode, run_entries, iter_opts_enough, iter_opts-encode}
use mapecd.Dhcp.Rules.{DhcpOption, ia_pd, other, take_port_params, parse_rules, parse_s46_cont_mape}
use mapecd.Dhcp.Rules.Wire.{br_of, rules_of, parse_s46_cont_mape-encode}
use mapecd.Dhcp.Prefix.{IaPd, complement_timer}
use mapecd.Dhcp.Prefix.Timers.{complement_timer_ordered}
use mapecd.Tests.Network.{networks}

-- Option 93 with the widths of v6plus.
abbrev options : List Entry
options = (93, 4 ∷ 8 ∷ 0 ∷ 0 ∷ []) ∷ []

-- 192.0.2.0/24 and 2001:db8::/40.
abbrev v4 : List ℕ
v4 = 192 ∷ 0 ∷ 2 ∷ []

abbrev v6 : List ℕ
v6 = 0x20 ∷ 0x01 ∷ 0x0d ∷ 0xb8 ∷ 0 ∷ []

abbrev rule_payload : List ℕ
rule_payload = 1 ∷ 16 ∷ 24 ∷ (v4 ++ 40 ∷ (v6 ++ encode options))

abbrev container : List Entry
container =
    (89, rule_payload)
    ∷ (90, 0x20 ∷ 0x01 ∷ 0x0d ∷ 0xb8 ∷ 0 ∷ 0 ∷ 0 ∷ 0 ∷ 0 ∷ 0 ∷ 0 ∷ 0 ∷ 0 ∷ 0 ∷ 0 ∷ 1 ∷ [])
    ∷ []

abbrev iapd : ℕ → IaPd
iapd id = record { id = id; t1 = 0; t2 = 0; opts = [] }

abbrev reply_options : List (DhcpOption IaPd)
reply_options = ia_pd (iapd 1) ∷ other ∷ ia_pd (iapd 2) ∷ []

iter_opts_enough_example :
    iter_rounds take_port_params 100 (encode options) default_port_params
    ≡ iter_opts take_port_params (encode options) default_port_params
iter_opts_enough_example =
    iter_opts_enough take_port_params 100 (encode options) default_port_params (omega arith)

iter_opts-encode_example :
    iter_opts take_port_params (encode options) default_port_params
    ≡ run_entries take_port_params options default_port_params
iter_opts-encode_example =
    iter_opts-encode take_port_params options default_port_params ((omega arith, omega arith), tt)

parse_s46_cont_mape-encode_example :
    parse_s46_cont_mape networks (encode container) ≡ elim (br_of container) [
      | none ↦ err missing_br_address
      | some br ↦ parse_rules networks (rules_of container) br
    ]
parse_s46_cont_mape-encode_example =
    parse_s46_cont_mape-encode networks container
      ((omega arith, omega arith), ((omega arith, omega arith), tt))

complement_timer_ordered_example :
    (complement_timer 0 86400 2 ≤ complement_timer 0 86400 5)
    × (complement_timer 0 86400 5 ≤ 86400)
    × (complement_timer 300 86400 2 ≡ 300)
complement_timer_ordered_example = complement_timer_ordered 86400 300 2 (omega arith) (omega arith)
