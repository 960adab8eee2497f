-- ===== src/Map/Calc/WellFormed.antt =====
-- The rules that RFC 7597 allows, as the code of src/map/calc.rs needs them.
use mapecd.Common.{ℕ, ◌+◌, ◌*◌, ◌^◌, ◌≤◌, ◌≡◌}
use mapecd.Map.Net.{Ipnet}
use mapecd.Map.Rule.{MapRule}

-- The end-user prefix leaves the interface identifier free, the widths of the port fit it, the PSID
-- is part of the EA-bits, and the rest of them fits the host bits of the IPv4 prefix.
pub record IsWellFormed (I : Ipnet) (rule : MapRule I) : Type 0 where
  pub prefix_fits : I.prefix_len6 rule.ipv6_prefix + rule.ea_length ≤ 64
  pub port_fits : rule.port_params.psid_offset + rule.port_params.psid_length ≤ 16
  pub psid_in_ea : rule.port_params.psid_length ≤ rule.ea_length
  pub host_bits : ℕ
  pub ipv4_network : ℕ
  pub network_value : I.network4 rule.ipv4_prefix ≡ ipv4_network * 2 ^ host_bits
  pub network_fits : I.network4 rule.ipv4_prefix + 2 ^ host_bits ≤ 2 ^ 32
  pub suffix_fits : rule.ea_length ≤ host_bits + rule.port_params.psid_length
