-- ===== src/Tests/Sessions.antt =====
-- Runs of the theorems on src/daemon/lifecycle.rs and src/daemon/runner.rs, on a host that counts the
-- calls and does them all, and on one whose `nft` fails.
use mapecd.Common.{
  ℕ, ◌+◌, ◌≡◌, ◌≢◌, ◌⊎◌, refl, true, false, List, [], ◌∷◌, Option, none, some, ok, err, add_checked,
  sub_checked, mul_checked, shl_checked, shr_checked,
}
use mapecd.Psid.{try_new}
use mapecd.Map.Rule.{nft_error, MapeParams}
use mapecd.Map.Calc.{
  compute_mape_params, extract_ea_bits, ea_bits_of, derive_ipv4_and_psid, psid_mask_of,
  build_ce_ipv6, prefix_mask_of, build_format, build_rfc7597, place_psid,
}
use mapecd.Map.PortSet.{port, ports_of_r, ports_from, is_next, merge_from, merge, calc_port_ranges}
use mapecd.Daemon.State.{
  DaemonState, try_rules, store_params, try_compute_rules, try_compute, new_state,
}
use mapecd.Daemon.Host.{Text, Reply, done, failed, Host, Config}
use mapecd.Daemon.Monad.{Run}
use mapecd.Daemon.Cache.{
  CacheFormat, create_parent, write_and_rename, save_rules_cache, load_rules_cache,
}
use mapecd.Daemon.Sysctl.{is_whitespace, trim_end, read_sysctl, write_sysctl}
use mapecd.Daemon.Lifecycle.{
  psid_config_from_params, staging_range_of, apply_ruleset, apply_step2_add_ipv6, tunnel_mtu_of,
  apply_step3_create_tunnel, apply_step5_5_ebpf, apply_step6_nftables, require_tunnel,
  apply_steps_from_4, apply, unlink_ebpf,
}
use mapecd.Daemon.Lifecycle.Change.{
  range_eq, ranges_eq, port_params_eq, has_changed, delete_ce_ipv6, cleanup_tunnel, restore_sysctl,
  update, cleanup,
}
use mapecd.Daemon.Lifecycle.Changed.{IsSame}
use mapecd.Daemon.Runner.{
  Event, ia_pd_received, both, format_of, or_cleanup, apply_computed, apply_if_ready, handle_both,
  save_rules, store_both, handle_ia_pd, change_or_reset, change_params, handle_event, run_events,
  shut_down,
}
use mapecd.Daemon.Runner.Invariant.{IsConsistent, IsDown}
use mapecd.Daemon.Runner.Sessions.{
  start, run_events-IsConsistent, IsReleased, apply_if_ready_reacts, first_apply_rolls_back,
}
use mapecd.Daemon.Runner.Inputs.{take_events, inputs_of, run_events-refines}
use mapecd.Daemon.Start.{
  load_reply, take_cached_rules, take_first_rules, startup_cleanup, start_linux, boot,
}
use mapecd.Daemon.Start.Released.{start_linux-IsReleased}
use mapecd.Tests.Network.{networks}
use mapecd.Tests.Rules.{small_rule, other_ce, small_params}

abbrev pub counted : {A : Type 0} → A → ℕ → Reply A × ℕ
counted a calls = (done a, calls + 1)

abbrev pub nft_fails : ℕ → Reply Unit × ℕ
nft_fails calls = (failed nft_error, calls + 1)

abbrev pub host_with : (ℕ → Reply Unit × ℕ) → Host
host_with nft = record {
  World = ℕ;
  Ebpf = Unit;
  read_to_string = λ _ calls. (some (48 ∷ 10 ∷ []), calls + 1);
  read = λ _ calls. (none, calls + 1);
  write = λ _ _ calls. (true, calls + 1);
  create_dir_all = λ _ calls. (true, calls + 1);
  rename = λ _ _ calls. (true, calls + 1);
  add_ipv6_addr = λ _ _. counted tt;
  del_ipv6_addr = λ _ _. counted tt;
  add_ipv4_addr = λ _ _. counted tt;
  del_ipv4_addr = λ _ _. counted tt;
  get_link_mtu = λ _. counted 1500;
  get_link_index = λ _. counted 2;
  create_ip6tnl = λ _ _ _ _ _. counted 7;
  delete_link = λ _. counted tt;
  add_ipv4_default_route = λ _. counted tt;
  del_ipv4_default_route_by_oif = λ _. counted tt;
  execute = λ _. nft;
  ip_link_delete = λ _ calls. calls + 1;
  load = λ _. counted tt;
  link_tc = λ _ _. counted tt;
  update_config = λ _ _. counted tt;
  unlink_tc = λ _. counted tt;
}

abbrev pub host : Host
host = host_with (counted tt)

abbrev broken_host : Host
broken_host = host_with nft_fails

abbrev pub cache : CacheFormat networks
cache = record {
  to_vec = λ _. some [];
  from_slice = λ _. none;
  parent = λ _. none;
  with_extension_tmp = λ path. path;
}

abbrev pub config : Config
config = record {
  upstream_interface = 97 ∷ [];
  tunnel_interface = 98 ∷ [];
  tunnel_mtu = none;
  use_v6plus_static_rules = false;
  map_rules_cache_file = 99 ∷ [];
}

abbrev state_with : {E : Type 0} → Option (MapeParams networks) → DaemonState networks Text E
state_with params = record {
  pending_map_rules = some (small_rule ∷ []);
  pending_ia_pd = some other_ce;
  params = params;
  tunnel_ifindex = none;
  original_ip_forward = none;
  original_ipv6_forward = none;
  ebpf = none;
}

abbrev pub up_state : DaemonState networks Text Unit
up_state = record {
  pending_map_rules = some (small_rule ∷ []);
  pending_ia_pd = some other_ce;
  params = some small_params;
  tunnel_ifindex = some 7;
  original_ip_forward = some (48 ∷ []);
  original_ipv6_forward = some (48 ∷ []);
  ebpf = some tt;
}

abbrev pub run_of : DaemonState networks Text Unit → ℕ → Run networks host
run_of state world = record { state = state; world = world }

abbrev broken_run : DaemonState networks Text Unit → ℕ → Run networks broken_host
broken_run state world = record { state = state; world = world }

recomputed : try_compute networks (format_of config) up_state ≡ (ok true, up_state)
unfolding try_compute try_compute_rules store_params try_rules compute_mape_params extract_ea_bits
    ea_bits_of derive_ipv4_and_psid psid_mask_of build_ce_ipv6 prefix_mask_of build_format
    build_rfc7597 place_psid calc_port_ranges port ports_of_r ports_from is_next merge_from merge
    sub_checked shl_checked shr_checked format_of
recomputed = refl

first_computed :
    try_compute networks (format_of config) (state_with {E = Unit} none)
    ≡ (ok true, state_with (some small_params))
unfolding try_compute try_compute_rules store_params try_rules compute_mape_params extract_ea_bits
    ea_bits_of derive_ipv4_and_psid psid_mask_of build_ce_ipv6 prefix_mask_of build_format
    build_rfc7597 place_psid calc_port_ranges port ports_of_r ports_from is_next merge_from merge
    sub_checked shl_checked shr_checked format_of
first_computed = refl

applied : (apply networks host config small_params (run_of (state_with none) 0)).0 ≡ ok tt
unfolding apply read_sysctl write_sysctl trim_end is_whitespace apply_step2_add_ipv6
    apply_step3_create_tunnel tunnel_mtu_of apply_steps_from_4 require_tunnel apply_step5_5_ebpf
    psid_config_from_params staging_range_of try_new add_checked mul_checked apply_step6_nftables
    apply_ruleset calc_port_ranges port ports_of_r ports_from is_next merge_from merge sub_checked
    shl_checked
applied = refl

-- `apply` on the host whose `nft` fails: all steps but the last.
broken :
    apply networks broken_host config small_params (broken_run (state_with (some small_params)) 0)
    ≡ (err nft_error, broken_run up_state 14)
unfolding apply read_sysctl write_sysctl trim_end is_whitespace apply_step2_add_ipv6
    apply_step3_create_tunnel tunnel_mtu_of apply_steps_from_4 require_tunnel apply_step5_5_ebpf
    psid_config_from_params staging_range_of try_new add_checked mul_checked apply_step6_nftables
    apply_ruleset calc_port_ranges port ports_of_r ports_from is_next merge_from merge sub_checked
    shl_checked
broken = refl

abbrev session : List (Event networks)
session = both (small_rule ∷ []) other_ce ∷ ia_pd_received other_ce ∷ []

session_ran :
    run_events networks host cache config session (start networks host cache none 0)
    ≡ (ok tt, run_of up_state 16)
unfolding try_compute try_compute_rules store_params try_rules compute_mape_params extract_ea_bits
    ea_bits_of derive_ipv4_and_psid psid_mask_of build_ce_ipv6 prefix_mask_of build_format
    build_rfc7597 place_psid calc_port_ranges port ports_of_r ports_from is_next merge_from merge
    sub_checked shl_checked shr_checked format_of run_events handle_event handle_both store_both
    save_rules save_rules_cache create_parent write_and_rename handle_ia_pd apply_if_ready
    apply_computed change_or_reset change_params has_changed ranges_eq range_eq port_params_eq
    or_cleanup new_state apply read_sysctl write_sysctl trim_end is_whitespace apply_step2_add_ipv6
    apply_step3_create_tunnel tunnel_mtu_of apply_steps_from_4 require_tunnel apply_step5_5_ebpf
    psid_config_from_params staging_range_of try_new add_checked mul_checked apply_step6_nftables
    apply_ruleset
session_ran = refl

run_events-IsConsistent_example :
    IsConsistent networks host cache
      (run_events networks host cache config session (start networks host cache none 0)).1.state
run_events-IsConsistent_example =
    run_events-IsConsistent networks host cache config none 0 session (rw session_ran (λ e. cc))

started :
    start_linux networks host cache config session (boot networks host cache 0)
    ≡ (ok tt, (start_linux networks host cache config session (boot networks host cache 0)).1)
unfolding try_compute try_compute_rules store_params try_rules compute_mape_params extract_ea_bits
    ea_bits_of derive_ipv4_and_psid psid_mask_of build_ce_ipv6 prefix_mask_of build_format
    build_rfc7597 place_psid calc_port_ranges port ports_of_r ports_from is_next merge_from merge
    sub_checked shl_checked shr_checked format_of start_linux take_first_rules take_cached_rules
    load_reply load_rules_cache startup_cleanup shut_down cleanup cleanup_tunnel unlink_ebpf
    delete_ce_ipv6 restore_sysctl run_events handle_event handle_both store_both save_rules
    save_rules_cache create_parent write_and_rename handle_ia_pd apply_if_ready apply_computed
    change_or_reset change_params has_changed ranges_eq range_eq port_params_eq or_cleanup new_state
    apply read_sysctl write_sysctl trim_end is_whitespace apply_step2_add_ipv6
    apply_step3_create_tunnel tunnel_mtu_of apply_steps_from_4 require_tunnel apply_step5_5_ebpf
    psid_config_from_params staging_range_of try_new add_checked mul_checked apply_step6_nftables
    apply_ruleset
started = refl

start_linux-IsReleased_example :
    IsReleased networks host cache
      (start_linux networks host cache config session (boot networks host cache 0)).1.state
start_linux-IsReleased_example = start_linux-IsReleased networks host cache config session 0 started

apply_if_ready_reacts_example :
    let after = run_of up_state 5 in
    (IsSame networks small_params small_params
      × (apply_if_ready networks host cache config after ≡ (ok tt, after)))
    ⊎ ((small_params.rule.port_params ≢ small_params.rule.port_params)
        × (apply_if_ready networks host cache config after
            ≡ or_cleanup networks host cache config small_params
                (apply networks host config small_params)
                (cleanup networks host config small_params after).1))
    ⊎ (¬ IsSame networks small_params small_params
        × (small_params.rule.port_params ≡ small_params.rule.port_params)
        × (apply_if_ready networks host cache config after
            ≡ or_cleanup networks host cache config small_params
                (update networks host config small_params small_params)
                after))
apply_if_ready_reacts_example =
    apply_if_ready_reacts networks host cache config (run_of up_state 5) small_params small_params 7
      up_state refl recomputed refl refl

first_apply_rolls_back_example :
    ((apply_if_ready networks broken_host cache config (broken_run (state_with none) 0)).0 ≡ ok tt)
    × IsDown networks broken_host cache
        (apply_if_ready networks broken_host cache config (broken_run (state_with none) 0)).1.state
    × ((apply_if_ready networks broken_host cache config
          (broken_run (state_with none) 0)).1.state.pending_map_rules
        ≡ some (small_rule ∷ []))
    × ((apply_if_ready networks broken_host cache config
          (broken_run (state_with none) 0)).1.state.pending_ia_pd
        ≡ some other_ce)
first_apply_rolls_back_example =
    first_apply_rolls_back networks broken_host cache config (broken_run (state_with none) 0)
      small_params nft_error (state_with (some small_params)) (broken_run up_state 14)
      first_computed refl refl broken

run_events-refines_example :
    inputs_of networks host cache up_state ≡ take_events networks false session (none, none)
run_events-refines_example =
    run_events-refines networks host cache config session (start networks host cache none 0)
      session_ran
