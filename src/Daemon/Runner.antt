-- ===== src/Daemon/Runner.antt =====
-- The event handlers and the event loop of src/daemon/runner.rs.
pub mod Invariant
pub mod Reactions
pub mod Sessions
pub mod Leak
pub mod Inputs
use mapecd.Common.{
  ℕ, ◌==◌, if◌then◌else◌, Bool, true, false, not, ◌&&◌, List, [], ◌∷◌, Option, none, some, Res, ok,
  err, panic,
}
use mapecd.Map.Net.{Ipnet}
use mapecd.Map.Rule.{MapeError, CeFormat, rfc7597, v6plus, MapRule, MapeParams}
use mapecd.Daemon.State.{DaemonState, try_compute}
use mapecd.Daemon.Cache.{CacheFormat, save_rules_cache}
use mapecd.Daemon.Host.{Text, Reply, done, Host, Config}
use mapecd.Daemon.Monad.{
  Run, Method, pure, raise, call, attempt, gets, modify, lift, when_some, ◌>>=◌, ◌>>◌,
}
use mapecd.Daemon.Lifecycle.{apply}
use mapecd.Daemon.Lifecycle.Change.{port_params_eq, has_changed, update, cleanup}

-- What `select!` hands to a handler: `DhcpV6Event` and `LeaseEvent`.
pub data Event (I : Ipnet) : Type 0 where
  ia_pd_received : I.Ipv6Net → Event I
  both : List (MapRule I) → I.Ipv6Net → Event I
  lease : I.Ipv6Net → Event I

unfoldable pub is_valid_ia_pd_for_static_rules : (I : Ipnet) → I.Ipv6Net → Bool
is_valid_ia_pd_for_static_rules I prefix = I.prefix_len6 prefix == 56

unfoldable pub format_of : Config → CeFormat
format_of config = if config.use_v6plus_static_rules then v6plus else rfc7597

module _ (I : Ipnet) (H : Host) (F : CacheFormat I) where
  -- `if let Err(e) = … { cleanup; state.params = None }`
  unfoldable pub or_cleanup : Config → MapeParams I → Method I H Unit → Method I H Unit
  or_cleanup config new m run =
      let (answer, after) = m run in
      elim answer [
        | ok _ ↦ (ok tt, after)
        | err _ ↦ (do cleanup I H config new; modify I H (λ s. record s { params = none })) after
        | panic ↦ (panic, after)
      ]

  -- The host is configured for `old`.
  unfoldable pub change_params : Config → MapeParams I → MapeParams I → Method I H Unit
  change_params config old new =
      if has_changed I old new
      then if not (port_params_eq old.rule.port_params new.rule.port_params)
        then (do cleanup I H config old; or_cleanup config new (apply I H config new))
        else or_cleanup config new (update I H config old new)
      else pure I H tt

  -- `match old_params`, where there is a tunnel.
  unfoldable pub change_or_reset : Config → Option (MapeParams I) → MapeParams I → Method I H Unit
  change_or_reset config old_params new = elim old_params [
    | some old ↦ change_params config old new
    | none ↦ (do cleanup I H config new; or_cleanup config new (apply I H config new))
  ]

  -- The arm `Ok(true)` of `apply_if_ready`.
  unfoldable pub apply_computed : Config → Option (MapeParams I) → Method I H Unit
  apply_computed config old_params = do
    params ← gets I H (λ s. s.params)
    tunnel_ifindex ← gets I H (λ s. s.tunnel_ifindex)
    when_some I H params (λ new. elim tunnel_ifindex [
      | some _ ↦ change_or_reset config old_params new
      | none ↦ or_cleanup config new (apply I H config new)
    ])

  unfoldable pub apply_if_ready : Config → Method I H Unit
  apply_if_ready config run =
      let old_params = run.state.params in
      let (answer, state) = try_compute I (format_of config) run.state in
      let after = record run { state = state } in
      elim answer [
        | ok computed ↦ if computed then apply_computed config old_params after else (ok tt, after)
        | err _ ↦ (ok tt, after)
        | panic ↦ (panic, after)
      ]

  unfoldable pub handle_ia_pd : Config → I.Ipv6Net → Method I H Unit
  handle_ia_pd config prefix =
      if config.use_v6plus_static_rules && not (is_valid_ia_pd_for_static_rules I prefix)
      then pure I H tt
      else (do modify I H (λ s. record s { pending_ia_pd = some prefix }); apply_if_ready config)

  -- A failed save is logged and dropped.
  unfoldable pub save_rules : Config → List (MapRule I) → H.World → Reply Unit × H.World
  save_rules config rules world =
      let (_, world') = save_rules_cache I H F config.map_rules_cache_file rules world in
      (done tt, world')

  -- The arm of `handle_both` without static rules.
  unfoldable pub store_both : Config → List (MapRule I) → I.Ipv6Net → Method I H Unit
  store_both config rules ia_pd = do
    attempt I H (save_rules config rules)
    modify I H (λ s. record s { pending_map_rules = some rules })
    modify I H (λ s. record s { pending_ia_pd = some ia_pd })

  unfoldable pub handle_both : Config → List (MapRule I) → I.Ipv6Net → Method I H Unit
  handle_both config rules ia_pd =
      if config.use_v6plus_static_rules
      then if not (is_valid_ia_pd_for_static_rules I ia_pd)
        then pure I H tt
        else (do modify I H (λ s. record s { pending_ia_pd = some ia_pd }); apply_if_ready config)
      else (do store_both config rules ia_pd; apply_if_ready config)

  unfoldable pub handle_event : Config → Event I → Method I H Unit
  handle_event config (ia_pd_received prefix) = handle_ia_pd config prefix
  handle_event config (both rules ia_pd) = handle_both config rules ia_pd
  handle_event config (lease prefix) = handle_ia_pd config prefix

  -- The loop, on the events that come before a signal.
  unfoldable pub run_events : Config → List (Event I) → Method I H Unit
  run_events config [] = pure I H tt
  run_events config (event ∷ events) =
      let rest = run_events config events in (do handle_event config event; rest)

  -- What follows the loop.
  unfoldable pub shut_down : Config → Method I H Unit
  shut_down config = do params ← gets I H (λ s. s.params); when_some I H params (cleanup I H config)
