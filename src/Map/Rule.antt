-- ===== src/Map/Rule.antt =====
-- src/map/rule.rs and src/error.rs.
use mapecd.Common.{ℕ, Bool, List}
use mapecd.Map.Net.{Ipnet}

-- The texts that some errors carry are not modelled.
pub data MapeError : Type 0 where
  config_not_found : MapeError
  invalid_config : MapeError
  invalid_ce_prefix : MapeError
  no_prefix_match : MapeError
  missing_br_address : MapeError
  empty_port_ranges : MapeError
  netlink_error : MapeError
  nft_error : MapeError
  ebpf_error : MapeError

pub data CeFormat : Type 0 where
  rfc7597 : CeFormat
  v6plus : CeFormat

pub record PortParams : Type 0 where
  pub psid_offset : ℕ
  pub psid_length : ℕ

-- `RangeInclusive<u16>`
pub record PortRange : Type 0 where
  pub start : ℕ
  pub last : ℕ

-- `PortParams::default`
abbrev pub default_port_params : PortParams
default_port_params = record { psid_offset = 0; psid_length = 0 }

pub record MapRule (I : Ipnet) : Type 0 where
  pub ipv6_prefix : I.Ipv6Net
  pub ipv4_prefix : I.Ipv4Net
  pub ea_length : ℕ
  pub is_fmr : Bool
  pub br_address : ℕ
  pub port_params : PortParams

pub record MapeParams (I : Ipnet) : Type 0 where
  pub ce_ipv6 : ℕ
  pub ipv4 : ℕ
  pub psid : ℕ
  pub port_ranges : List PortRange
  pub br_address : ℕ
  pub rule : MapRule I
  pub ce_format : CeFormat
