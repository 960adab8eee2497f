-- ===== src/Daemon/Runner/Inputs.antt =====
-- The inputs of the daemon in src/daemon/runner.rs: the rules and the delegated prefix that it waits
-- with. What happens to them is a machine of its own, which the handlers implement.
use mapecd.Common.{
  ◌≡◌, ap, ◌∙◌, arith, inl, inr, Bool, true, false, not, ◌&&◌, if◌then◌else◌, List, [], ◌∷◌, Option,
  none, some, Res, ok, Option-cases,
}
use mapecd.Map.Net.{Ipnet}
use mapecd.Map.Rule.{MapeError, MapRule, MapeParams}
use mapecd.Daemon.State.{DaemonState}
use mapecd.Daemon.Host.{Text, Host, Config}
use mapecd.Daemon.Monad.{Run, Method}
use mapecd.Daemon.Cache.{CacheFormat, save_rules_cache}
use mapecd.Daemon.Lifecycle.{apply}
use mapecd.Daemon.Lifecycle.Change.{update, cleanup}
use mapecd.Daemon.Lifecycle.Effects.{cleanup_forgets, apply_keeps}
use mapecd.Daemon.Lifecycle.Updates.{update-IsSafe}
use mapecd.Daemon.Runner.{
  Event, ia_pd_received, both, lease, is_valid_ia_pd_for_static_rules, format_of, or_cleanup,
  change_params, change_or_reset, apply_computed, apply_if_ready, handle_ia_pd, save_rules,
  store_both, handle_both, handle_event, run_events,
}
use mapecd.Daemon.Runner.Reactions.{try_compute-Effect}

abbrev pub Inputs : Ipnet → Type 0
Inputs I = Option (List (MapRule I)) × Option I.Ipv6Net

-- The machine: with static rules only a prefix of 56 bits is taken, and no rules; otherwise each
-- event sets what it carries.
abbrev pub take_prefix : (I : Ipnet) → Bool → I.Ipv6Net → Inputs I → Inputs I
take_prefix I static prefix (rules, old) =
    if static && not (is_valid_ia_pd_for_static_rules I prefix)
    then (rules, old)
    else (rules, some prefix)

abbrev pub take_event : (I : Ipnet) → Bool → Event I → Inputs I → Inputs I
take_event I static (ia_pd_received prefix) inputs = take_prefix I static prefix inputs
take_event I static (lease prefix) inputs = take_prefix I static prefix inputs
take_event I true (both rules prefix) inputs = take_prefix I true prefix inputs
take_event I false (both rules prefix) inputs = (some rules, some prefix)

abbrev pub take_events : (I : Ipnet) → Bool → List (Event I) → Inputs I → Inputs I
take_events I static [] inputs = inputs
take_events I static (event ∷ events) inputs =
    take_events I static events (take_event I static event inputs)

module _ (I : Ipnet) (H : Host) (F : CacheFormat I) where
  abbrev pub inputs_of : DaemonState I Text H.Ebpf → Inputs I
  inputs_of s = (s.pending_map_rules, s.pending_ia_pd)

  abbrev KeepsInputs : Run I H → Res MapeError Unit × Run I H → Type 0
  KeepsInputs run m =
      (m.1.state.pending_map_rules ≡ run.state.pending_map_rules)
      × (m.1.state.pending_ia_pd ≡ run.state.pending_ia_pd)

  or_cleanup_inputs :
      (config : Config) (new : MapeParams I) (m : Method I H Unit) (run : Run I H)
      → KeepsInputs run (m run)
      → KeepsInputs run (or_cleanup I H F config new m run)
  unfolding or_cleanup
  or_cleanup_inputs config new m run kept = ground (arith, cleanup_forgets I H config new (m run).1)

  apply_inputs :
      (config : Config) (new : MapeParams I) (run : Run I H)
      → KeepsInputs run (or_cleanup I H F config new (apply I H config new) run)
  apply_inputs config new run =
      let kept = apply_keeps I H config new run in
      or_cleanup_inputs config new (apply I H config new) run (kept.rules, kept.prefix)

  reset_inputs :
      (config : Config) (old new : MapeParams I) (run : Run I H)
      → KeepsInputs run
          (or_cleanup I H F config new (apply I H config new) (cleanup I H config old run).1)
  reset_inputs config old new run =
      let cleaned = cleanup_forgets I H config old run in
      let applied = apply_inputs config new (cleanup I H config old run).1 in ground arith

  update_inputs :
      (config : Config) (old new : MapeParams I) (run : Run I H)
      → KeepsInputs run (or_cleanup I H F config new (update I H config old new) run)
  update_inputs config old new run =
      let safe = update-IsSafe I H config old new run in
      let kept = safe.kept in
      or_cleanup_inputs config new (update I H config old new) run (kept.rules, kept.prefix)

  change_params_inputs :
      (config : Config) (old new : MapeParams I) (run : Run I H)
      → KeepsInputs run (change_params I H F config old new run)
  unfolding change_params
  change_params_inputs config old new run = ground (
    arith,
    reset_inputs config old new run,
    update_inputs config old new run,
    cleanup_forgets I H config old run,
  )

  change_or_reset_inputs :
      (config : Config) (old_params : Option (MapeParams I)) (new : MapeParams I) (run : Run I H)
      → KeepsInputs run (change_or_reset I H F config old_params new run)
  unfolding change_or_reset
  change_or_reset_inputs config none new run =
      ground (arith, reset_inputs config new new run, cleanup_forgets I H config new run)
  change_or_reset_inputs config (some old) new run = change_params_inputs config old new run

  apply_computed_inputs :
      (config : Config) (old_params : Option (MapeParams I)) (run : Run I H)
      → KeepsInputs run (apply_computed I H F config old_params run)
  unfolding apply_computed
  apply_computed_inputs config old_params run = elim (Option-cases run.state.params) [
    | inl missing ↦ ground arith
    | inr (new, e) ↦
        ground
          (arith, change_or_reset_inputs config old_params new run, apply_inputs config new run)
  ]

  apply_if_ready_inputs :
      (config : Config) (run : Run I H) → KeepsInputs run (apply_if_ready I H F config run)
  unfolding apply_if_ready
  apply_if_ready_inputs config run = elim (try_compute-Effect I H F (format_of config) run.state) [
    | inl (same, other) ↦ ground arith
    | inr (computed, (p, stored)) ↦
        let after = record run { state = record run.state { params = some p } } in
        ground (arith, apply_computed_inputs config run.state.params after)
  ]

  set_prefix_inputs :
      (config : Config) (prefix : I.Ipv6Net) (run : Run I H)
      → inputs_of (handle_ia_pd I H F config prefix run).1.state
        ≡ take_prefix I config.use_v6plus_static_rules prefix (inputs_of run.state)
  unfolding handle_ia_pd
  set_prefix_inputs config prefix run =
      let after = record run { state = record run.state { pending_ia_pd = some prefix } } in
      ground (arith, apply_if_ready_inputs config after)

  set_both_inputs :
      (config : Config) (rules : List (MapRule I)) (prefix : I.Ipv6Net) (run : Run I H)
      → inputs_of (handle_both I H F config rules prefix run).1.state
        ≡ take_event I config.use_v6plus_static_rules (both rules prefix) (inputs_of run.state)
  unfolding handle_both store_both save_rules
  set_both_inputs config rules prefix run =
      let static = record run { state = record run.state { pending_ia_pd = some prefix } } in
      let saved = (save_rules_cache I H F config.map_rules_cache_file rules run.world).1 in
      let both_state = record run.state {
        pending_map_rules = some rules;
        pending_ia_pd = some prefix;
      } in
      let after : Run I H = record { state = both_state; world = saved } in
      ground (arith, apply_if_ready_inputs config static, apply_if_ready_inputs config after)

  pub handle_event_inputs :
      (config : Config) (event : Event I) (run : Run I H)
      → inputs_of (handle_event I H F config event run).1.state
        ≡ take_event I config.use_v6plus_static_rules event (inputs_of run.state)
  unfolding handle_event
  handle_event_inputs config (ia_pd_received prefix) run = set_prefix_inputs config prefix run
  handle_event_inputs config (both rules prefix) run = set_both_inputs config rules prefix run
  handle_event_inputs config (lease prefix) run = set_prefix_inputs config prefix run

  -- The event loop refines the machine of its inputs: whatever the host answers, after events that
  -- are handled without a panic the pending rules and the pending prefix are those of `take_events`,
  -- where each event sets what it carries, except that with static rules only a prefix of 56 bits is
  -- taken, and no rules.
  pub run_events-refines :
      (config : Config) (events : List (Event I)) (run : Run I H) {after : Run I H}
      → run_events I H F config events run ≡ (ok tt, after)
      → inputs_of after.state
        ≡ take_events I config.use_v6plus_static_rules events (inputs_of run.state)
  unfolding run_events
  run_events-refines config [] run ran = ground arith
  run_events-refines config (event ∷ events) run {after} ran =
      let middle = (handle_event I H F config event run).1 in
      let rest : run_events I H F config events middle ≡ (ok tt, after) = ground arith in
      let first = handle_event_inputs config event run in
      run_events-refines config events middle rest
      ∙ ap (take_events I config.use_v6plus_static_rules events) first
