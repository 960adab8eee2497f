-- ===== src/Daemon/Runner/Reactions.antt =====
-- The handlers of src/daemon/runner.rs keep what the daemon remembers of the host consistent.
use mapecd.Common.{
  ◌≡◌, ◌≢◌, ◌⊎◌, inl, inr, refl, arith, Bool, true, List, [], ◌∷◌, Option, none, some, Res, ok, err,
  panic, is_empty, Option-cases, Bool-cases,
}
use mapecd.Map.Net.{Ipnet}
use mapecd.Map.Rule.{MapeError, CeFormat, MapRule, MapeParams}
use mapecd.Daemon.State.{DaemonState, try_rules, try_compute, try_compute_rules, store_params}
use mapecd.Daemon.Host.{Text, Host, Config}
use mapecd.Daemon.Monad.{Run}
use mapecd.Daemon.Cache.{CacheFormat, save_rules_cache}
use mapecd.Daemon.Lifecycle.Effects.{IsUp}
use mapecd.Daemon.Runner.{
  Event, format_of, ia_pd_received, both, lease, apply_if_ready, handle_ia_pd, save_rules,
  store_both, handle_both, handle_event, run_events,
}
use mapecd.Daemon.Runner.Invariant.{IsConsistent, IsSound, apply_computed-IsSound}

module _ (I : Ipnet) (H : Host) (F : CacheFormat I) where
  -- What `try_compute` does to a state: nothing but new parameters.
  abbrev pub Effect :
      DaemonState I Text H.Ebpf → Res MapeError Bool × DaemonState I Text H.Ebpf → Type 0
  Effect s m =
      ((m.1 ≡ s) × (m.0 ≢ ok true))
      ⊎ ((m.0 ≡ ok true) × ((p : MapeParams I) × (m.1 ≡ record s { params = some p })))

  store_params-Effect :
      (s : DaemonState I Text H.Ebpf) (m : Res MapeError (MapeParams I))
      → Effect s (store_params I s m)
  unfolding store_params
  store_params-Effect s (ok p) = inr (refl, (p, refl))
  store_params-Effect s (err e) = inl (refl, λ h. cc)
  store_params-Effect s panic = inl (refl, λ h. cc)

  pub try_compute-Effect :
      (format : CeFormat) (s : DaemonState I Text H.Ebpf) → Effect s (try_compute I format s)
  unfolding try_compute try_compute_rules
  try_compute-Effect format s = elim (Option-cases s.pending_map_rules) [
    | inl missing ↦ inl (ground arith)
    | inr (rules, e) ↦ elim (Bool-cases (is_empty rules)) [
      | inl empty ↦ inl (ground arith)
      | inr nonempty ↦ elim (Option-cases s.pending_ia_pd) [
        | inl missing ↦ inl (ground arith)
        | inr (ce, e') ↦
            let stored : try_compute I format s ≡ store_params I s (try_rules I ce format rules) =
              ground arith in
            simp (stored) (store_params-Effect s (try_rules I ce format rules))
      ]
    ]
  ]

  pub apply_if_ready-IsSound :
      (config : Config) (run : Run I H)
      → IsConsistent I H F run.state
      → IsSound I H F (apply_if_ready I H F config run)
  unfolding apply_if_ready
  apply_if_ready-IsSound config run c = elim (try_compute-Effect (format_of config) run.state) [
    | inl (same, other) ↦ ground arith
    | inr (computed, (p, stored)) ↦
        let after = record run { state = record run.state { params = some p } } in
        let tunnel : (after.state.tunnel_ifindex ≡ none)
            ⊎ (IsUp I H after.state × (run.state.params ≢ none)) =
          elim c [
            | inl down ↦ inl down.tunnel
            | inr live ↦ let up = live.up in inr (ground arith, live.params)
          ] in
        let sound = apply_computed-IsSound I H F config run.state.params after (λ e. cc) tunnel in
        ground arith
  ]

  -- The inputs do not matter for what is remembered.
  with_inputs-IsConsistent :
      (s : DaemonState I Text H.Ebpf) (rules : Option (List (MapRule I)))
      (prefix : Option I.Ipv6Net)
      → IsConsistent I H F s
      → IsConsistent I H F (record s { pending_map_rules = rules; pending_ia_pd = prefix })
  with_inputs-IsConsistent s rules prefix (inl down) = inl (record {
    params = down.params;
    tunnel = down.tunnel;
    ip_forward = down.ip_forward;
    ipv6_forward = down.ipv6_forward;
    manager = down.manager;
  })
  with_inputs-IsConsistent s rules prefix (inr live) =
      let up = live.up in
      inr (record {
        params = live.params;
        up = record {
          tunnel = up.tunnel;
          ip_forward = up.ip_forward;
          ipv6_forward = up.ipv6_forward;
          manager = up.manager;
        };
      })

  handle_ia_pd-IsSound :
      (config : Config) (prefix : I.Ipv6Net) (run : Run I H)
      → IsConsistent I H F run.state
      → IsSound I H F (handle_ia_pd I H F config prefix run)
  unfolding handle_ia_pd
  handle_ia_pd-IsSound config prefix run c =
      let after = record run { state = record run.state { pending_ia_pd = some prefix } } in
      let still = with_inputs-IsConsistent run.state run.state.pending_map_rules (some prefix) c in
      ground (arith, apply_if_ready-IsSound config after still)

  handle_both-IsSound :
      (config : Config) (rules : List (MapRule I)) (prefix : I.Ipv6Net) (run : Run I H)
      → IsConsistent I H F run.state
      → IsSound I H F (handle_both I H F config rules prefix run)
  unfolding handle_both store_both save_rules
  handle_both-IsSound config rules prefix run c =
      let static = record run { state = record run.state { pending_ia_pd = some prefix } } in
      let kept = with_inputs-IsConsistent run.state run.state.pending_map_rules (some prefix) c in
      let saved = (save_rules_cache I H F config.map_rules_cache_file rules run.world).1 in
      let both_state = record run.state {
        pending_map_rules = some rules;
        pending_ia_pd = some prefix;
      } in
      let after : Run I H = record { state = both_state; world = saved } in
      let still = with_inputs-IsConsistent run.state (some rules) (some prefix) c in
      ground (
        arith,
        apply_if_ready-IsSound config static kept,
        apply_if_ready-IsSound config after still,
      )

  pub handle_event-IsSound :
      (config : Config) (event : Event I) (run : Run I H)
      → IsConsistent I H F run.state
      → IsSound I H F (handle_event I H F config event run)
  unfolding handle_event
  handle_event-IsSound config (ia_pd_received prefix) run c =
      handle_ia_pd-IsSound config prefix run c
  handle_event-IsSound config (both rules prefix) run c =
      handle_both-IsSound config rules prefix run c
  handle_event-IsSound config (lease prefix) run c = handle_ia_pd-IsSound config prefix run c

  pub run_events-IsSound :
      (config : Config) (events : List (Event I)) (run : Run I H)
      → IsConsistent I H F run.state
      → IsSound I H F (run_events I H F config events run)
  unfolding run_events
  run_events-IsSound config [] run c = record { sound = λ _. c }
  run_events-IsSound config (event ∷ events) run c =
      let first = handle_event-IsSound config event run c in
      let after = (handle_event I H F config event run).1 in
      ground (arith, run_events-IsSound config events after)
