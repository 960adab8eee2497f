-- ===== src/Daemon/Runner/Sessions.antt =====
-- Whole sessions of the daemon (src/daemon/runner.rs): any events, and any answers of the host.
use mapecd.Common.{
  ℕ, ◌≡◌, ◌≢◌, inl, inr, refl, arith, true, false, List, Option, none, some, ok, err, panic,
  Option-cases, Bool, Bool-cases, ◌⊎◌,
}
use mapecd.Map.Net.{Ipnet}
use mapecd.Map.Rule.{MapeError, MapRule, MapeParams}
use mapecd.Daemon.State.{DaemonState, try_compute, new_state}
use mapecd.Daemon.Host.{Text, Host, Config}
use mapecd.Daemon.Monad.{Run}
use mapecd.Daemon.Cache.{CacheFormat}
use mapecd.Daemon.Lifecycle.{apply}
use mapecd.Daemon.Lifecycle.Change.{port_params_eq, has_changed, update, cleanup}
use mapecd.Daemon.Lifecycle.Changed.{IsSame, has_changed_iff, port_params_eq_iff}
use mapecd.Daemon.Lifecycle.Effects.{cleanup_forgets, apply_keeps}
use mapecd.Daemon.Runner.{
  Event, format_of, or_cleanup, change_params, change_or_reset, apply_computed, apply_if_ready,
  run_events, shut_down,
}
use mapecd.Daemon.Runner.Invariant.{IsDown, IsConsistent}
use mapecd.Daemon.Runner.Reactions.{run_events-IsSound}

module _ (I : Ipnet) (H : Host) (F : CacheFormat I) where
  -- The run before the first event: some rules may come from the cache or the static table.
  abbrev pub start : Option (List (MapRule I)) → H.World → Run I H
  start rules world = record {
    state = record (new_state I) { pending_map_rules = rules };
    world = world;
  }

  start-IsConsistent :
      (rules : Option (List (MapRule I))) (world : H.World)
      → IsConsistent I H F (start rules world).state
  unfolding new_state
  start-IsConsistent rules world = inl (record {
    params = refl;
    tunnel = refl;
    ip_forward = refl;
    ipv6_forward = refl;
    manager = refl;
  })

  -- From the start, through any events and whatever the host answers, a daemon that has not
  -- panicked either has no parameters, no tunnel, no saved sysctl value and no eBPF manager, or has
  -- them all.
  pub run_events-IsConsistent :
      (config : Config) (rules : Option (List (MapRule I))) (world : H.World)
      (events : List (Event I))
      → (run_events I H F config events (start rules world)).0 ≢ panic
      → IsConsistent I H F (run_events I H F config events (start rules world)).1.state
  run_events-IsConsistent config rules world events ne =
      let s =
        run_events-IsSound I H F config events (start rules world)
          (start-IsConsistent rules world) in
      s.sound ne

  -- Nothing that a cleanup would still need.
  pub record IsReleased (s : DaemonState I Text H.Ebpf) : Type 0 where
    pub tunnel : s.tunnel_ifindex ≡ none
    pub ip_forward : s.original_ip_forward ≡ none
    pub ipv6_forward : s.original_ipv6_forward ≡ none
    pub manager : s.ebpf ≡ none

  shut_down_releases :
      (config : Config) (run : Run I H)
      → IsConsistent I H F run.state
      → IsReleased (shut_down I H F config run).1.state
  unfolding shut_down
  shut_down_releases config run (inl down) = ground arith
  shut_down_releases config run (inr live) = elim (Option-cases run.state.params) [
    | inl missing ↦ absurd (live.params missing)
    | inr (params, e) ↦ ground (arith, cleanup_forgets I H config params run)
  ]

  -- A session that ends in order releases everything: after any events that are handled without a
  -- panic, and the cleanup at the end, the state names no tunnel, no eBPF manager and no saved
  -- sysctl value.
  pub session_releases :
      (config : Config) (rules : Option (List (MapRule I))) (world : H.World)
      (events : List (Event I)) {after : Run I H}
      → run_events I H F config events (start rules world) ≡ (ok tt, after)
      → IsReleased (shut_down I H F config after).1.state
  session_releases config rules world events {after} ran =
      let sound : IsConsistent I H F (run_events I H F config events (start rules world)).1.state =
        run_events-IsConsistent config rules world events (rw ran (λ e. cc)) in
      shut_down_releases config after (rw ran at sound)

  -- What a new computation does to a host that is configured: nothing exactly where the CE address,
  -- the IPv4 address, the PSID, the BR, the port ranges and the port parameters are those of before,
  -- and then `apply_if_ready` makes no call; with other port parameters, a cleanup and a new `apply`;
  -- with the same ones and another difference, an `update`. A failure of either is cleaned up.
  pub apply_if_ready_reacts :
      (config : Config) (run : Run I H) (old new : MapeParams I) (oif : ℕ)
      (state : DaemonState I Text H.Ebpf)
      → run.state.params ≡ some old
      → try_compute I (format_of config) run.state ≡ (ok true, state)
      → state.params ≡ some new
      → state.tunnel_ifindex ≡ some oif
      → let after = record run { state = state } in
        (IsSame I old new × (apply_if_ready I H F config run ≡ (ok tt, after)))
        ⊎ ((old.rule.port_params ≢ new.rule.port_params)
            × (apply_if_ready I H F config run
                ≡ or_cleanup I H F config new
                    (apply I H config new)
                    (cleanup I H config old after).1))
        ⊎ (¬ IsSame I old new
            × (old.rule.port_params ≡ new.rule.port_params)
            × (apply_if_ready I H F config run
                ≡ or_cleanup I H F config new (update I H config old new) after))
  unfolding apply_if_ready apply_computed change_or_reset change_params
  apply_if_ready_reacts config run old new oif state applied computed stored tunnel =
      let clash : (b : Bool) → b ≡ false → ¬ (b ≡ true) = λ b no yes. absurd (ground arith) in
      let after : Run I H = record run { state = state } in
      let cleaned = (cleanup_forgets I H config old after).0 in
      let (same, alike) = has_changed_iff I old new in
      let (params, params') = port_params_eq_iff old.rule.port_params new.rule.port_params in
      elim (Bool-cases (has_changed I old new)) [
        | inr kept ↦ inl (same kept, ground arith)
        | inl changed ↦
            elim (Bool-cases (port_params_eq old.rule.port_params new.rule.port_params)) [
              | inl equal ↦ inr (
                  inr (
                    (λ one. clash (has_changed I old new) (alike one) changed),
                    params equal,
                    ground arith,
                  ))
              | inr other ↦ inr (
                  inl (
                    (λ e.
                        clash (port_params_eq old.rule.port_params new.rule.port_params) other
                          (params' e)),
                    ground arith,
                  ))
            ]
      ]

  -- A first `apply` that fails is rolled back: `apply_if_ready` still succeeds, the parameters are
  -- dropped, the state names nothing that it had set up, and the inputs stay for the next event.
  pub first_apply_rolls_back :
      (config : Config) (run : Run I H) (new : MapeParams I) (e : MapeError)
      (state : DaemonState I Text H.Ebpf) (broken : Run I H)
      → try_compute I (format_of config) run.state ≡ (ok true, state)
      → state.params ≡ some new
      → state.tunnel_ifindex ≡ none
      → apply I H config new (record run { state = state }) ≡ (err e, broken)
      → ((apply_if_ready I H F config run).0 ≡ ok tt)
        × IsDown I H F (apply_if_ready I H F config run).1.state
        × ((apply_if_ready I H F config run).1.state.pending_map_rules ≡ state.pending_map_rules)
        × ((apply_if_ready I H F config run).1.state.pending_ia_pd ≡ state.pending_ia_pd)
  unfolding apply_if_ready apply_computed or_cleanup
  first_apply_rolls_back config run new e state broken computed stored tunnel broke =
      let kept = apply_keeps I H config new (record run { state = state }) in
      let forgets = cleanup_forgets I H config new broken in ground arith
