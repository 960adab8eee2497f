-- ===== src/Daemon/Cache/Restart.antt =====
-- The rules survive a restart: what src/daemon/runner.rs saves is what it loads.
use mapecd.Common.{◌≡◌, arith, true, List, Option, some, Option-cases, inl, inr}
use mapecd.Map.Net.{Ipnet}
use mapecd.Map.Rule.{MapRule}
use mapecd.Daemon.Host.{Text, Host}
use mapecd.Daemon.Cache.{
  CacheFormat, create_parent, write_and_rename, save_rules_cache, load_rules_cache,
}

-- What the program relies on in the files and in serde: a written file holds what was written, a
-- renamed one is found under its new name, and what is encoded is decoded.
pub record IsStore (I : Ipnet) (H : Host) (F : CacheFormat I) : Type 0 where
  pub content : H.World → Text → Option Text
  pub write_puts :
      (path bytes : Text) (w : H.World)
      → (H.write path bytes w).0 ≡ true
      → content (H.write path bytes w).1 path ≡ some bytes
  pub rename_moves :
      (path to bytes : Text) (w : H.World)
      → content w path ≡ some bytes
      → (H.rename path to w).0 ≡ true
      → content (H.rename path to w).1 to ≡ some bytes
  pub read_gives : (path : Text) (w : H.World) → (H.read path w).0 ≡ content w path
  pub from_slice-to_vec :
      (rules : List (MapRule I)) (bytes : Text)
      → F.to_vec rules ≡ some bytes
      → F.from_slice bytes ≡ some rules

module _ (I : Ipnet) (H : Host) (F : CacheFormat I) (law : IsStore I H F) where
  write_and_rename_puts :
      (path bytes : Text) (w : H.World) {w' : H.World}
      → write_and_rename I H F path bytes w ≡ (true, w')
      → law.content w' path ≡ some bytes
  unfolding write_and_rename
  write_and_rename_puts path bytes w h =
      let tmp = F.with_extension_tmp path in
      let w1 = (H.write tmp bytes w).1 in
      ground (arith, law.write_puts tmp bytes w, law.rename_moves tmp path bytes w1)

  -- A cache that is saved is loaded: after a `save_rules_cache` that succeeds, `load_rules_cache` gives
  -- the same rules.
  pub load_rules_cache-save_rules_cache :
      (path : Text) (rules : List (MapRule I)) (w : H.World) {w' : H.World}
      → save_rules_cache I H F path rules w ≡ (true, w')
      → (load_rules_cache I H F path w').0 ≡ some rules
  unfolding save_rules_cache load_rules_cache
  load_rules_cache-save_rules_cache path rules w {w'} h =
      let w1 = (create_parent I H F path w).1 in
      elim (Option-cases (F.to_vec rules)) [
        | inl failed ↦ absurd (ground arith)
        | inr (bytes, encoded) ↦
            let wrote : write_and_rename I H F path bytes w1 ≡ (true, w') = ground arith in
            let put = write_and_rename_puts path bytes w1 wrote in
            ground (arith, law.read_gives path w', law.from_slice-to_vec rules bytes encoded)
      ]
