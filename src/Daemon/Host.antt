-- ===== src/Daemon/Host.antt =====
-- What the daemon calls: the traits `NetlinkHandle` (src/netlink/mod.rs), `CommandExecutor`
-- (src/nftables/manager.rs) and `EbpfHandle` (src/ebpf/manager.rs), and the files it writes. Each call
-- takes the world and returns it changed.
use mapecd.Common.{ℕ, Bool, Option, List}
use mapecd.Map.Rule.{MapeError, PortRange}
use mapecd.Psid.{PsidConfig}

-- A text as its code points.
abbrev pub Text : Type 0
Text = List ℕ

-- `Result<A, MapEError>` of a call.
pub data Reply (A : Type 0) : Type 0 where
  done : A → Reply A
  failed : MapeError → Reply A

-- What goes to `nft`. The text of a rule set, which Nft.antt has, is fixed but for these five values,
-- in the order of `generate_ruleset`.
pub data Script : Type 0 where
  nft_ruleset : List PortRange → Text → ℕ → ℕ → ℕ → Script
  nft_deletion : Script

pub record Host : Type 1 where
  pub World : Type 0
  -- The manager of a loaded program; what it keeps is part of the world.
  pub Ebpf : Type 0
  pub read_to_string : Text → World → Option Text × World
  -- `std::fs::read`
  pub read : Text → World → Option Text × World
  pub write : Text → Text → World → Bool × World
  pub create_dir_all : Text → World → Bool × World
  pub rename : Text → Text → World → Bool × World
  pub add_ipv6_addr : ℕ → ℕ → World → Reply Unit × World
  pub del_ipv6_addr : ℕ → ℕ → World → Reply Unit × World
  pub add_ipv4_addr : ℕ → ℕ → World → Reply Unit × World
  pub del_ipv4_addr : ℕ → ℕ → World → Reply Unit × World
  pub get_link_mtu : Text → World → Reply ℕ × World
  pub get_link_index : Text → World → Reply ℕ × World
  pub create_ip6tnl : Text → ℕ → ℕ → ℕ → ℕ → World → Reply ℕ × World
  pub delete_link : ℕ → World → Reply Unit × World
  pub add_ipv4_default_route : ℕ → World → Reply Unit × World
  pub del_ipv4_default_route_by_oif : ℕ → World → Reply Unit × World
  pub execute : Script → World → Reply Unit × World
  -- The command `ip link delete`, whatever it gives.
  pub ip_link_delete : Text → World → World
  pub load : PsidConfig → World → Reply Ebpf × World
  pub link_tc : Ebpf → Text → World → Reply Unit × World
  pub update_config : Ebpf → PsidConfig → World → Reply Unit × World
  pub unlink_tc : Ebpf → World → Reply Unit × World

-- The fields of `Config` (src/config.rs) that the daemon's handlers read.
pub record Config : Type 0 where
  pub upstream_interface : Text
  pub tunnel_interface : Text
  pub tunnel_mtu : Option ℕ
  pub use_v6plus_static_rules : Bool
  pub map_rules_cache_file : Text
