-- ===== src/Map/V6plus/Row.antt =====
-- A row of src/map/v6plus_rules.rs, with its numbers, and the rule that it makes.
use mapecd.Common.{ℕ, ◌+◌, ◌*◌, ◌^◌, true, none, some, Res, ok, panic}
use mapecd.Map.Net.{Ipnet}
use mapecd.Map.Rule.{MapeError, PortParams, MapRule}

pub record Row : Type 0 where
  pub addr6 : ℕ
  pub len6 : ℕ
  pub addr4 : ℕ
  pub len4 : ℕ
  pub ea_length : ℕ
  pub br_address : ℕ
  pub port_params : PortParams

-- `Ipv6Addr::new` of which the last five segments are 0, and `Ipv4Addr::new`.
abbrev pub ipv6_of : ℕ → ℕ → ℕ → ℕ
ipv6_of a b c = a * 2 ^ 112 + b * 2 ^ 96 + c * 2 ^ 80

abbrev pub ipv4_of : ℕ → ℕ → ℕ → ℕ → ℕ
ipv4_of a b c d = a * 2 ^ 24 + b * 2 ^ 16 + c * 2 ^ 8 + d

-- The fields in the order of the source; `is_fmr` is `true` in every row.
abbrev pub entry : ℕ → ℕ → ℕ → ℕ → ℕ → ℕ → ℕ → ℕ → ℕ → ℕ → ℕ → PortParams → Row
entry s0 s1 s2 len6 a b c d len4 ea_length br_address port_params = record {
  addr6 = ipv6_of s0 s1 s2;
  len6 = len6;
  addr4 = ipv4_of a b c d;
  len4 = len4;
  ea_length = ea_length;
  br_address = br_address;
  port_params = port_params;
}

abbrev pub ports_8 : PortParams
ports_8 = record { psid_offset = 4; psid_length = 8 }

abbrev pub ports_6 : PortParams
ports_6 = record { psid_offset = 6; psid_length = 6 }

abbrev pub br_275 : ℕ
br_275 = ipv6_of 0x2001 0x0260 0x0700 + 1 * 2 ^ 64 + 0x1 * 2 ^ 16 + 0x0275

abbrev pub br_276 : ℕ
br_276 = ipv6_of 0x2001 0x0260 0x0700 + 1 * 2 ^ 64 + 0x1 * 2 ^ 16 + 0x0276

abbrev pub br_64 : ℕ
br_64 = ipv6_of 0x2404 0x9200 0x0225 + 0x0100 * 2 ^ 64 + 0x0064

abbrev pub br_9 : ℕ
br_9 = ipv6_of 0x2001 0x0380 0xa120 + 0x0009

module _ (I : Ipnet) where
  -- The rule of a row; `new_assert` panics where the prefix length is too large.
  unfoldable pub rule_of : Row → Res MapeError (MapRule I)
  rule_of row = elim (I.new6 row.addr6 row.len6) [
    | none ↦ panic
    | some ipv6_prefix ↦ elim (I.new4 row.addr4 row.len4) [
      | none ↦ panic
      | some ipv4_prefix ↦ ok (record {
        ipv6_prefix = ipv6_prefix;
        ipv4_prefix = ipv4_prefix;
        ea_length = row.ea_length;
        is_fmr = true;
        br_address = row.br_address;
        port_params = row.port_params;
      })
    ]
  ]
