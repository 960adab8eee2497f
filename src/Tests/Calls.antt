-- ===== src/Tests/Calls.antt =====
-- Runs of the theorems on the calls of src/daemon, on a host that does not find an interface at its
-- first call.
use mapecd.Common.{◌≡◌, refl, arith, true, false, is_empty, if◌then◌else◌, [], ◌∷◌, none, some}
use mapecd.Map.Rule.{netlink_error, MapeParams}
use mapecd.Daemon.Host.{done, failed, Config}
use mapecd.Daemon.Monad.{Run}
use mapecd.Daemon.Sysctl.{sysctl_ipv4_forward, sysctl_ipv6_forward_all}
use mapecd.Daemon.Cache.{CacheFormat}
use mapecd.Daemon.Lifecycle.Change.{update, cleanup}
use mapecd.Daemon.Lifecycle.Calls.{
  write_file, del_ipv6, link_index, Answers, noting, tunnel_calls, cleanup_calls,
}
use mapecd.Daemon.Runner.{or_cleanup}
use mapecd.Daemon.Runner.Leak.{failed_update_leaks}
use mapecd.Tests.Network.{networks}
use mapecd.Tests.Rules.{small_params}

abbrev late : Answers
late = record {
  text = λ _ _. none;
  written = λ _ _. true;
  unit = λ _ _. done tt;
  number = λ calls _. if is_empty calls then failed netlink_error else done 2;
}

abbrev new_params : MapeParams networks
new_params = record small_params { ce_ipv6 = 5 }

abbrev config : Config
config = record {
  upstream_interface = 97 ∷ [];
  tunnel_interface = 98 ∷ [];
  tunnel_mtu = none;
  use_v6plus_static_rules = false;
  map_rules_cache_file = 99 ∷ [];
}

abbrev cache : CacheFormat networks
cache = record {
  to_vec = λ _. some [];
  from_slice = λ _. none;
  parent = λ _. none;
  with_extension_tmp = λ path. path;
}

abbrev up_run : Run networks (noting late)
up_run = record {
  state = record {
    pending_map_rules = none;
    pending_ia_pd = none;
    params = some new_params;
    tunnel_ifindex = some 7;
    original_ip_forward = some (48 ∷ []);
    original_ipv6_forward = some (49 ∷ []);
    ebpf = some 3;
  };
  world = [];
}

cleanup_calls_example :
    (cleanup networks (noting late) config small_params up_run).1.world
    ≡ write_file sysctl_ipv4_forward (48 ∷ [])
      ∷ write_file sysctl_ipv6_forward_all (49 ∷ [])
      ∷ del_ipv6 2 small_params.ce_ipv6
      ∷ link_index (97 ∷ [])
      ∷ tunnel_calls 3 7 0xC0000201 []
cleanup_calls_example =
    cleanup_calls networks late config small_params up_run 3 7 2 (48 ∷ []) (49 ∷ []) refl refl refl
      refl refl

failed_update_leaks_example :
    ((or_cleanup networks
        (noting late)
        cache
        config
        new_params
        (update networks (noting late) config small_params new_params)
        up_run).1.world
      ≡ write_file sysctl_ipv4_forward (48 ∷ [])
        ∷ write_file sysctl_ipv6_forward_all (49 ∷ [])
        ∷ del_ipv6 2 5
        ∷ link_index (97 ∷ [])
        ∷ tunnel_calls 3 7 0xC0000201 (link_index (97 ∷ []) ∷ []))
    × ((or_cleanup networks
          (noting late)
          cache
          config
          new_params
          (update networks (noting late) config small_params new_params)
          up_run).1.state.params
        ≡ none)
failed_update_leaks_example =
    failed_update_leaks networks late cache config small_params new_params up_run 3 7 2 (48 ∷ [])
      (49 ∷ []) netlink_error (omega arith) refl refl refl refl refl refl
