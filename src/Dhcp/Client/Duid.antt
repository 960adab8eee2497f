-- ===== src/Dhcp/Client/Duid.antt =====
-- The identifiers of src/dhcpv6/client.rs: `load_or_create_duid`, `get_mac_addr` and `get_iaid`.
pub mod Stable
use mapecd.Common.{
  ℕ, zero, suc, ◌-◌, ◌/◌, ◌%◌, ◌^◌, ◌==◌, bit_and, not, leb, if◌then◌else◌, Bool, true, false, List,
  [], ◌∷◌, ◌++◌, length, Option, none, some,
}
use mapecd.Map.Net.{Ipnet}
use mapecd.Settings.{text_eq}
use mapecd.Daemon.Host.{Text}
use mapecd.Dhcp.Client.Network.{IfAddr, Network, Action, pure, call, require, try_call, ◌>>=◌, ◌>>◌}

abbrev pub duid_llt_epoch : ℕ
duid_llt_epoch = 946684800

-- `to_be_bytes` of a number of `n` bytes.
unfoldable pub to_be_bytes : ℕ → ℕ → List ℕ
to_be_bytes zero x = []
to_be_bytes (suc n) x = x / 256 ^ n % 256 ∷ to_be_bytes n x

abbrev pub zero_mac : List ℕ
zero_mac = 0 ∷ 0 ∷ 0 ∷ 0 ∷ 0 ∷ 0 ∷ []

-- The MAC of an entry: of a link address of 6 bytes.
unfoldable pub mac_of : IfAddr → Option (List ℕ)
mac_of ifaddr = elim ifaddr.link_addr [
  | none ↦ none
  | some (halen, raw) ↦ if halen == 6 then raw else none
]

-- The loop over the entries, and what follows it.
unfoldable pub find_mac : Text → List IfAddr → List ℕ
find_mac iface [] = zero_mac
find_mac iface (ifaddr ∷ addrs) =
    let rest = find_mac iface addrs in
    if text_eq ifaddr.interface_name iface
    then elim (mac_of ifaddr) [ none ↦ rest | some raw ↦ raw ]
    else rest

-- The seconds since 2000 in 32 bits.
unfoldable pub duid_time : ℕ → ℕ
duid_time now = bit_and (now - duid_llt_epoch) 0xffffffff % 2 ^ 32

unfoldable pub duid_llt : ℕ → List ℕ → List ℕ
duid_llt now mac = to_be_bytes 2 1 ++ (to_be_bytes 2 1 ++ (to_be_bytes 4 (duid_time now) ++ mac))

module _ {I : Ipnet} (N : Network I) where
  unfoldable pub get_mac_addr : Text → Action N.World (List ℕ)
  get_mac_addr iface = do
    addrs ← call N.getifaddrs
    elim addrs [ none ↦ pure zero_mac | some entries ↦ pure (find_mac iface entries) ]

  unfoldable pub create_parent_dir : Option Text → Action N.World Unit
  create_parent_dir none = pure tt
  create_parent_dir (some parent) = try_call (N.create_dir_all parent)

  -- From the MAC on.
  unfoldable pub create_duid : Text → Text → Action N.World (List ℕ)
  create_duid upstream_interface path = do
    mac ← get_mac_addr upstream_interface
    now ← call N.unix_time
    create_parent_dir (N.parent path)
    try_call (N.write path (duid_llt now mac))
    pure (duid_llt now mac)

  unfoldable pub load_or_create_duid : Text → Text → Action N.World (List ℕ)
  load_or_create_duid upstream_interface path = do
    exists ← call (N.exists_file path)
    if exists
        then (do
          content ← call (N.read path)
          bytes ← require content
          if leb 4 (length bytes) then pure bytes else create_duid upstream_interface path)
        else create_duid upstream_interface path

  unfoldable pub get_iaid : Text → Action N.World ℕ
  get_iaid iface = do
    index ← call (N.if_nametoindex iface)
    elim index [ some idx ↦ pure idx | none ↦ pure 0 ]
