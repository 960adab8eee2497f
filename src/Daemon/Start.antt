-- ===== src/Daemon/Start.antt =====
-- The start of the daemon in src/daemon/runner.rs, and the whole of `start_linux`: the rules that it
-- begins with, the cleanup of what an earlier run has left, the event loop, and the last cleanup.
pub mod Released
pub mod Static
use mapecd.Common.{
  ℕ, ◌==◌, ltb, if◌then◌else◌, ◌&&◌, length, List, [], ◌∷◌, Option, none, some, Res, ok, err, panic,
  ◌>>=◌ as bind,
}
use mapecd.Map.Net.{Ipnet}
use mapecd.Map.Rule.{MapeError, invalid_config, MapRule}
use mapecd.Map.V6plus.Row.{Row, rule_of}
use mapecd.Map.V6plus.Table.{v6plus_map_rules, rule_count}
use mapecd.Daemon.State.{new_state}
use mapecd.Daemon.Host.{Text, Reply, done, nft_deletion, Host, Config}
use mapecd.Daemon.Monad.{
  Run, Method, pure, raise, call, attempt, modify, lift, when_some, ◌>>=◌, ◌>>◌,
}
use mapecd.Daemon.Cache.{CacheFormat, load_rules_cache}
use mapecd.Daemon.Runner.{Event, run_events, shut_down}

-- `V6PLUS_MAP_RULES.to_vec()`
unfoldable pub rules_of_rows : (I : Ipnet) → List Row → Res MapeError (List (MapRule I))
rules_of_rows I [] = ok []
rules_of_rows I (row ∷ rows) =
    bind (rule_of I row) λ rule. bind (rules_of_rows I rows) λ rules. ok (rule ∷ rules)

module _ (I : Ipnet) (H : Host) (F : CacheFormat I) where
  -- The static rules, whose number is checked.
  unfoldable pub take_static_rules : Method I H Unit
  take_static_rules =
      if length v6plus_map_rules == rule_count && ltb 0 rule_count
      then (do
        rules ← lift I H (rules_of_rows I v6plus_map_rules)
        modify I H (λ s. record s { pending_map_rules = some rules }))
      else raise I H invalid_config

  unfoldable pub load_reply : Text → H.World → Reply (Option (List (MapRule I))) × H.World
  load_reply path world =
      let (rules, world') = load_rules_cache I H F path world in (done rules, world')

  unfoldable pub take_cached_rules : Config → Method I H Unit
  take_cached_rules config = do
    cached ← call I H (load_reply config.map_rules_cache_file)
    when_some I H cached (λ rules. modify I H (λ s. record s { pending_map_rules = some rules }))

  unfoldable pub take_first_rules : Config → Method I H Unit
  take_first_rules config =
      if config.use_v6plus_static_rules then take_static_rules else take_cached_rules config

  -- `delete_tables` and the command, whose errors are dropped.
  unfoldable pub startup_cleanup : Config → Method I H Unit
  startup_cleanup config = do
    attempt I H (H.execute nft_deletion)
    attempt I H (λ world. (done tt, H.ip_link_delete config.tunnel_interface world))

  -- With the events that come before a signal.
  unfoldable pub start_linux : Config → List (Event I) → Method I H Unit
  start_linux config events = do
    take_first_rules config
    startup_cleanup config
    run_events I H F config events
    shut_down I H F config

  abbrev pub boot : H.World → Run I H
  boot world = record { state = new_state I; world = world }
