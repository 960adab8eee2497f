-- ===== src/Daemon/Sysctl.antt =====
-- The sysctl helpers of src/daemon/lifecycle.rs.
use mapecd.Common.{
  ℕ, leb, ◌==◌, if◌then◌else◌, Bool, true, false, ◌||◌, ◌&&◌, [], ◌∷◌, is_empty, Option, none, some,
}
use mapecd.Map.Net.{Ipnet}
use mapecd.Map.Rule.{netlink_error}
use mapecd.Daemon.Host.{Text, Reply, done, failed, Host}
use mapecd.Daemon.Monad.{Method, call}

-- `char::is_whitespace`
unfoldable pub is_whitespace : ℕ → Bool
is_whitespace c =
    (leb 9 c && leb c 13)
    || c == 32
    || c == 0x85
    || c == 0xA0
    || c == 0x1680
    || (leb 0x2000 c && leb c 0x200A)
    || c == 0x2028
    || c == 0x2029
    || c == 0x202F
    || c == 0x205F
    || c == 0x3000

-- `str::trim_end`
unfoldable pub trim_end : Text → Text
trim_end [] = []
trim_end (c ∷ text) =
    let rest = trim_end text in if is_empty rest && is_whitespace c then [] else c ∷ rest

-- "/proc/sys/net/ipv4/ip_forward" and "/proc/sys/net/ipv6/conf/all/forwarding"
abbrev pub sysctl_ipv4_forward : Text
sysctl_ipv4_forward =
    47 ∷ 112 ∷ 114 ∷ 111 ∷ 99 ∷ 47 ∷ 115 ∷ 121 ∷ 115 ∷ 47 ∷ 110 ∷ 101 ∷ 116 ∷ 47 ∷ 105 ∷ 112 ∷ 118
    ∷ 52 ∷ 47 ∷ 105 ∷ 112 ∷ 95 ∷ 102 ∷ 111 ∷ 114 ∷ 119 ∷ 97 ∷ 114 ∷ 100 ∷ []

abbrev pub sysctl_ipv6_forward_all : Text
sysctl_ipv6_forward_all =
    47 ∷ 112 ∷ 114 ∷ 111 ∷ 99 ∷ 47 ∷ 115 ∷ 121 ∷ 115 ∷ 47 ∷ 110 ∷ 101 ∷ 116 ∷ 47 ∷ 105 ∷ 112 ∷ 118
    ∷ 54 ∷ 47 ∷ 99 ∷ 111 ∷ 110 ∷ 102 ∷ 47 ∷ 97 ∷ 108 ∷ 108 ∷ 47 ∷ 102 ∷ 111 ∷ 114 ∷ 119 ∷ 97 ∷ 114
    ∷ 100 ∷ 105 ∷ 110 ∷ 103 ∷ []

-- "1"
abbrev pub enabled : Text
enabled = 49 ∷ []

-- `Ok(text)` of a file that was read, without the white space at its end.
abbrev read_reply : Option Text → Reply Text
read_reply none = failed netlink_error
read_reply (some text) = done (trim_end text)

abbrev write_reply : Bool → Reply Unit
write_reply true = done tt
write_reply false = failed netlink_error

module _ (I : Ipnet) (H : Host) where
  -- The call behind `read_sysctl`, and the one behind `write_sysctl`.
  abbrev read_call : Text → H.World → Reply Text × H.World
  read_call path world =
      let (read, world') = H.read_to_string path world in (read_reply read, world')

  abbrev pub write_call : Text → Text → H.World → Reply Unit × H.World
  write_call path value world =
      let (written, world') = H.write path value world in (write_reply written, world')

  unfoldable pub read_sysctl : Text → Method I H Text
  read_sysctl path = call I H (read_call path)

  unfoldable pub write_sysctl : Text → Text → Method I H Unit
  write_sysctl path value = call I H (write_call path value)
