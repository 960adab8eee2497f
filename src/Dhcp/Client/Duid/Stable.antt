-- ===== src/Dhcp/Client/Duid/Stable.antt =====
-- The DUID of src/dhcpv6/client.rs stays: once there is one, every start of the client reads it.
use mapecd.Common.{
  ℕ, ◌≤◌, ◌≡◌, arith, true, List, Option, some, ok, length, Option-cases, Bool-cases, leb, inl, inr,
}
use mapecd.Map.Net.{Ipnet}
use mapecd.Daemon.Host.{Text}
use mapecd.Dhcp.Client.Network.{Network}
use mapecd.Dhcp.Client.Duid.{
  to_be_bytes, duid_llt, create_parent_dir, get_mac_addr, create_duid, load_or_create_duid,
}

-- What the program relies on in the files: what is written is there, and looking changes nothing.
pub record IsFiles {I : Ipnet} (N : Network I) : Type 0 where
  pub content : N.World → Text → Option (List ℕ)
  pub exists_reads :
      (path : Text) (w : N.World) (bytes : List ℕ)
      → content w path ≡ some bytes
      → (N.exists_file path w).0 ≡ true
  pub exists_keeps :
      (path : Text) (w : N.World) → content (N.exists_file path w).1 path ≡ content w path
  pub read_gives : (path : Text) (w : N.World) → (N.read path w).0 ≡ content w path
  pub read_keeps : (path : Text) (w : N.World) → content (N.read path w).1 path ≡ content w path
  pub write_puts :
      (path : Text) (bytes : List ℕ) (w : N.World)
      → (N.write path bytes w).0 ≡ true
      → content (N.write path bytes w).1 path ≡ some bytes

module _ {I : Ipnet} (N : Network I) (law : IsFiles N) (iface path : Text) where
  duid_llt_long : (now : ℕ) (mac : List ℕ) → 4 ≤ length (duid_llt now mac)
  unfolding duid_llt to_be_bytes
  duid_llt_long now mac = ground arith

  abbrev IsKeptIn : N.World → List ℕ → Type 0
  IsKeptIn w duid = (4 ≤ length duid) × (law.content w path ≡ some duid)

  create_duid_stores :
      (w : N.World) (duid : List ℕ) {w' : N.World}
      → create_duid N iface path w ≡ (ok duid, w')
      → IsKeptIn w' duid
  unfolding create_duid create_parent_dir get_mac_addr
  create_duid_stores w duid h = grind (arith, duid_llt_long, law.write_puts)

  load_or_create_duid_stores :
      (w : N.World) (duid : List ℕ) {w' : N.World}
      → load_or_create_duid N iface path w ≡ (ok duid, w')
      → IsKeptIn w' duid
  unfolding load_or_create_duid
  load_or_create_duid_stores w duid {w'} h =
      let w1 = (N.exists_file path w).1 in
      let w2 = (N.read path w1).1 in
      elim (Bool-cases (N.exists_file path w).0) [
        | inr missing ↦
            let made : create_duid N iface path w1 ≡ (ok duid, w') = ground arith in
            create_duid_stores w1 duid made
        | inl found ↦ elim (Option-cases (N.read path w1).0) [
          | inl unread ↦ absurd (ground arith)
          | inr (bytes, e) ↦ elim (Bool-cases (leb 4 (length bytes))) [
            | inr short ↦
                let made : create_duid N iface path w2 ≡ (ok duid, w') = ground arith in
                create_duid_stores w2 duid made
            | inl long ↦ ground (arith, law.read_keeps path w1, law.read_gives path w1)
          ]
        ]
      ]

  load_stored :
      (w : N.World) (duid : List ℕ)
      → IsKeptIn w duid
      → (load_or_create_duid N iface path w).0 ≡ ok duid
  unfolding load_or_create_duid
  load_stored w duid (long, stored) =
      let w1 = (N.exists_file path w).1 in
      ground (
        arith,
        law.exists_reads path w duid stored,
        law.exists_keeps path w,
        law.read_gives path w1,
      )

  -- The client's identity is stable: the DUID that `load_or_create_duid` answers has at least 4 bytes,
  -- is in the file afterwards, and is what the next start reads.
  pub load_or_create_duid_stable :
      (w : N.World) (duid : List ℕ) {w' : N.World}
      → load_or_create_duid N iface path w ≡ (ok duid, w')
      → (4 ≤ length duid)
        × (law.content w' path ≡ some duid)
        × ((load_or_create_duid N iface path w').0 ≡ ok duid)
  load_or_create_duid_stable w duid {w'} h =
      let stored = load_or_create_duid_stores w duid h in
      (stored.0, stored.1, load_stored w' duid stored)
