-- ===== src/Daemon/Start/Released.antt =====
-- The daemon of src/daemon/runner.rs from its start to its end.
use mapecd.Common.{
  ◌≡◌, arith, List, Option, none, some, ok, Res-cases, Bool-cases, Option-cases, inl, inr,
}
use mapecd.Map.Net.{Ipnet}
use mapecd.Map.Rule.{MapRule}
use mapecd.Map.V6plus.Table.{v6plus_map_rules}
use mapecd.Daemon.State.{new_state}
use mapecd.Daemon.Host.{Host, Config}
use mapecd.Daemon.Monad.{Run}
use mapecd.Daemon.Cache.{CacheFormat, load_rules_cache}
use mapecd.Daemon.Runner.{Event, run_events, shut_down}
use mapecd.Daemon.Runner.Sessions.{start, IsReleased, session_releases}
use mapecd.Daemon.Start.{
  rules_of_rows, take_static_rules, load_reply, take_cached_rules, take_first_rules,
  startup_cleanup, start_linux, boot,
}

module _ (I : Ipnet) (H : Host) (F : CacheFormat I) where
  -- A run before the first event, with whatever rules.
  record IsStart (run : Run I H) : Type 0 where
    rules : Option (List (MapRule I))
    state : run.state ≡ record (new_state I) { pending_map_rules = rules }

  take_static_rules-IsStart :
      (world : H.World) {run : Run I H}
      → take_static_rules I H F (boot I H F world) ≡ (ok tt, run)
      → IsStart run
  unfolding take_static_rules
  take_static_rules-IsStart world h = elim (Res-cases (rules_of_rows I v6plus_map_rules)) [
    | inl (rules, e) ↦ record { rules = some rules; state = ground arith }
    | inr broken ↦ absurd (ground arith)
  ]

  take_cached_rules-IsStart :
      (config : Config) (world : H.World) {run : Run I H}
      → take_cached_rules I H F config (boot I H F world) ≡ (ok tt, run)
      → IsStart run
  unfolding take_cached_rules load_reply new_state
  take_cached_rules-IsStart config world h =
      elim (Option-cases (load_rules_cache I H F config.map_rules_cache_file world).0) [
        | inl missing ↦ record { rules = none; state = ground arith }
        | inr (rules, e) ↦ record { rules = some rules; state = ground arith }
      ]

  take_first_rules-IsStart :
      (config : Config) (world : H.World) {run : Run I H}
      → take_first_rules I H F config (boot I H F world) ≡ (ok tt, run)
      → IsStart run
  unfolding take_first_rules
  take_first_rules-IsStart config world h = elim (Bool-cases config.use_v6plus_static_rules) [
    | inl static ↦ take_static_rules-IsStart world (ground arith)
    | inr dynamic ↦ take_cached_rules-IsStart config world (ground arith)
  ]

  startup_cleanup-IsStart :
      (config : Config) (run : Run I H)
      → IsStart run
      → (rules : Option (List (MapRule I))) × (world : H.World) × (startup_cleanup I H F config run
          ≡ (ok tt, start I H F rules world))
  unfolding startup_cleanup
  startup_cleanup-IsStart config run s =
      (s.rules, (startup_cleanup I H F config run).1.world, ground (arith, s.state))

  -- From the start to the end: a daemon that ends in order, with static rules or those of the cache,
  -- after any events and whatever the host answers, names no tunnel, no eBPF manager and no saved
  -- sysctl value that it would have to give back.
  pub start_linux-IsReleased :
      (config : Config) (events : List (Event I)) (world : H.World) {after : Run I H}
      → start_linux I H F config events (boot I H F world) ≡ (ok tt, after)
      → IsReleased I H F after.state
  unfolding start_linux
  start_linux-IsReleased config events world {after} h =
      let first = take_first_rules I H F config (boot I H F world) in
      elim (Res-cases first.0) [
        | inr broken ↦ absurd (ground arith)
        | inl (unit, took) ↦
            let taken : take_first_rules I H F config (boot I H F world) ≡ (ok tt, first.1) =
              ground arith in
            let (rules, world', cleaned) =
              startup_cleanup-IsStart config first.1
                (take_first_rules-IsStart config world taken) in
            let ran = run_events I H F config events (start I H F rules world') in
            elim (Res-cases ran.0) [
              | inr broken ↦ absurd (ground arith)
              | inl (unit', e) ↦
                  let events_ran : ran ≡ (ok tt, ran.1) = ground arith in
                  let shut : shut_down I H F config ran.1 ≡ (ok tt, after) = ground arith in
                  let released = session_releases I H F config rules world' events events_ran in
                  rw shut at released
            ]
      ]
