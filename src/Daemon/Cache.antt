-- ===== src/Daemon/Cache.antt =====
-- `save_rules_cache`, whose `Ok(())` is `true`, and `load_rules_cache` of src/daemon/runner.rs.
pub mod Restart
use mapecd.Common.{Bool, true, false, if◌then◌else◌, List, Option, none, some}
use mapecd.Map.Net.{Ipnet}
use mapecd.Map.Rule.{MapRule}
use mapecd.Daemon.Host.{Text, Host}

-- `serde_json::to_vec` and `from_slice`, `Path::parent`, and `Path::with_extension("tmp")`.
pub record CacheFormat (I : Ipnet) : Type 0 where
  pub to_vec : List (MapRule I) → Option Text
  pub from_slice : Text → Option (List (MapRule I))
  pub parent : Text → Option Text
  pub with_extension_tmp : Text → Text

module _ (I : Ipnet) (H : Host) (F : CacheFormat I) where
  -- The directory, if the path has one.
  unfoldable pub create_parent : Text → H.World → Bool × H.World
  create_parent path world = elim (F.parent path) [
    | none ↦ (true, world)
    | some parent ↦ H.create_dir_all parent world
  ]

  -- From the temporary file on.
  unfoldable pub write_and_rename : Text → Text → H.World → Bool × H.World
  write_and_rename path bytes world =
      let tmp_path = F.with_extension_tmp path in
      let (written, world') = H.write tmp_path bytes world in
      if written then H.rename tmp_path path world' else (false, world')

  unfoldable pub save_rules_cache : Text → List (MapRule I) → H.World → Bool × H.World
  save_rules_cache path rules world =
      let (created, world') = create_parent path world in
      if created
      then elim (F.to_vec rules) [
        | none ↦ (false, world')
        | some bytes ↦ write_and_rename path bytes world'
      ]
      else (false, world')

  unfoldable pub load_rules_cache : Text → H.World → Option (List (MapRule I)) × H.World
  load_rules_cache path world =
      let (content, world') = H.read path world in
      elim content [ none ↦ (none, world') | some bytes ↦ (F.from_slice bytes, world') ]
