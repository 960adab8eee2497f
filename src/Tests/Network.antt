-- ===== src/Tests/Network.antt =====
-- Networks as pairs of an address and a length, in the place of the crate ipnet.
use mapecd.Common.{
  ℕ, ◌-◌, ◌*◌, ◌/◌, ◌%◌, ◌^◌, min, leb, ◌==◌, ==_iff, if◌then◌else◌, some, none, arith, refl,
}
use native.Mathlib.Nat.{mod-lt}
use mapecd.Map.Net.{Ipnet, IsIpv6}

abbrev addr6 : ℕ × ℕ → ℕ
addr6 n = n.0 % 2 ^ 128

abbrev len6 : ℕ × ℕ → ℕ
len6 n = min n.1 128

abbrev cut6 : ℕ × ℕ → ℕ
cut6 n = addr6 n / 2 ^ (128 - len6 n) * 2 ^ (128 - len6 n)

abbrev cut4 : ℕ × ℕ → ℕ
cut4 n = n.0 / 2 ^ (32 - n.1) * 2 ^ (32 - n.1)

abbrev pub networks : Ipnet
networks = record {
  Ipv4Net = ℕ × ℕ;
  Ipv6Net = ℕ × ℕ;
  new4 = λ addr len. if leb len 32 then some (addr, len) else none;
  new6 = λ addr len. if leb len 128 then some (addr, len) else none;
  trunc4 = λ n. (cut4 n, n.1);
  trunc6 = λ n. (cut6 n, n.1);
  network4 = cut4;
  network6 = cut6;
  addr6 = addr6;
  prefix_len6 = len6;
  contains6 = λ n a. a / 2 ^ (128 - len6 n) == addr6 n / 2 ^ (128 - len6 n);
}

pub networks-IsIpv6 : IsIpv6 networks
networks-IsIpv6 = record {
  addr_fits = λ n. mod-lt n.0 (omega arith);
  len_fits = λ n. omega arith;
  network_value = λ n. refl;
  contains_iff = λ n a. ==_iff (a / 2 ^ (128 - len6 n)) (addr6 n / 2 ^ (128 - len6 n));
}
