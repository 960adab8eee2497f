-- ===== src/Map/Net.antt =====
-- What the program uses of the crate ipnet, as a parameter, and what it relies on there. Addresses
-- of std::net are their numbers: an `Ipv4Addr` below 2 ^ 32, an `Ipv6Addr` below 2 ^ 128.
use mapecd.Common.{ℕ, ◌-◌, ◌*◌, ◌/◌, ◌^◌, ◌≤◌, ◌<◌, ◌≡◌, ◌↔◌, Bool, true, Option}

pub record Ipnet : Type 1 where
  pub Ipv4Net : Type 0
  pub Ipv6Net : Type 0
  -- `Ipv4Net::new` and `Ipv6Net::new`; `none` is their `PrefixLenError`.
  pub new4 : ℕ → ℕ → Option Ipv4Net
  pub new6 : ℕ → ℕ → Option Ipv6Net
  pub trunc4 : Ipv4Net → Ipv4Net
  pub trunc6 : Ipv6Net → Ipv6Net
  pub network4 : Ipv4Net → ℕ
  pub network6 : Ipv6Net → ℕ
  pub addr6 : Ipv6Net → ℕ
  pub prefix_len6 : Ipv6Net → ℕ
  -- `contains` on an address.
  pub contains6 : Ipv6Net → ℕ → Bool

-- The documented behaviour of an IPv6 network.
pub record IsIpv6 (I : Ipnet) : Type 0 where
  pub addr_fits : (n : I.Ipv6Net) → I.addr6 n < 2 ^ 128
  pub len_fits : (n : I.Ipv6Net) → I.prefix_len6 n ≤ 128
  -- The network address has the host bits of the address cleared.
  pub network_value :
      (n : I.Ipv6Net)
      → I.network6 n ≡ I.addr6 n / 2 ^ (128 - I.prefix_len6 n) * 2 ^ (128 - I.prefix_len6 n)
  -- An address is contained if its leading bits are the prefix.
  pub contains_iff :
      (n : I.Ipv6Net) (a : ℕ)
      → (I.contains6 n a ≡ true)
        ↔ (a / 2 ^ (128 - I.prefix_len6 n) ≡ I.addr6 n / 2 ^ (128 - I.prefix_len6 n))
