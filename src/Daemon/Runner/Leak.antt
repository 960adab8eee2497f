-- ===== src/Daemon/Runner/Leak.antt =====
-- An address that src/daemon/runner.rs leaves behind after a failed `update`.
use mapecd.Common.{ℕ, ◌≡◌, ◌≢◌, ◌∙◌, arith, ◌∷◌, none, some, err}
use mapecd.Map.Net.{Ipnet}
use mapecd.Map.Rule.{MapeError, MapeParams}
use mapecd.Daemon.Host.{Text, done, failed, Config}
use mapecd.Daemon.Monad.{Run, Method}
use mapecd.Daemon.Sysctl.{sysctl_ipv4_forward, sysctl_ipv6_forward_all}
use mapecd.Daemon.Cache.{CacheFormat}
use mapecd.Daemon.Lifecycle.Change.{update_ce_ipv6, update_changed, update, cleanup}
use mapecd.Daemon.Lifecycle.Effects.{cleanup_forgets}
use mapecd.Daemon.Lifecycle.Calls.{
  write_file, del_ipv6, link_index, Answers, noting, tunnel_calls, cleanup_calls,
}
use mapecd.Daemon.Runner.{or_cleanup}

module _ (I : Ipnet) (a : Answers) (F : CacheFormat I) where
  or_cleanup_failed :
      (config : Config) (new : MapeParams I) (m : Method I (noting a) Unit)
      (run after : Run I (noting a)) (e : MapeError)
      → m run ≡ (err e, after)
      → ((or_cleanup I (noting a) F config new m run).1.world
          ≡ (cleanup I (noting a) config new after).1.world)
        × ((or_cleanup I (noting a) F config new m run).1.state.params ≡ none)
  unfolding or_cleanup
  or_cleanup_failed config new m run after e broke =
      let cleaned = cleanup_forgets I (noting a) config new after in ground arith

  -- Where the CE address changes and the first look at the upstream interface fails but the second
  -- one succeeds, the handler's calls after the failed `update` are these: the only IPv6 address that
  -- is deleted is the new one, which was never added. The parameters are dropped.
  pub failed_update_leaks :
      (config : Config) (old new : MapeParams I) (run : Run I (noting a)) (ebpf oif upstream : ℕ)
      (ipv4_forward ipv6_forward : Text) (e : MapeError)
      → old.ce_ipv6 ≢ new.ce_ipv6
      → run.state.ebpf ≡ some ebpf
      → run.state.tunnel_ifindex ≡ some oif
      → run.state.original_ip_forward ≡ some ipv4_forward
      → run.state.original_ipv6_forward ≡ some ipv6_forward
      → a.number run.world (link_index config.upstream_interface) ≡ failed e
      → a.number
          (tunnel_calls ebpf oif new.ipv4 (link_index config.upstream_interface ∷ run.world))
          (link_index config.upstream_interface)
        ≡ done upstream
      → ((or_cleanup I (noting a) F config new (update I (noting a) config old new) run).1.world
          ≡ write_file sysctl_ipv4_forward ipv4_forward
            ∷ write_file sysctl_ipv6_forward_all ipv6_forward
            ∷ del_ipv6 upstream new.ce_ipv6
            ∷ link_index config.upstream_interface
            ∷ tunnel_calls ebpf oif new.ipv4 (link_index config.upstream_interface ∷ run.world))
        × ((or_cleanup I
              (noting a)
              F
              config
              new
              (update I (noting a) config old new)
              run).1.state.params
            ≡ none)
  unfolding update update_changed update_ce_ipv6
  failed_update_leaks config old new run ebpf oif upstream ipv4_forward ipv6_forward e differ eb tu
        v4 v6 lost found =
      let after : Run I (noting a) = record {
        state = run.state;
        world = link_index config.upstream_interface ∷ run.world;
      } in
      let calls =
        cleanup_calls I a config new after ebpf oif upstream ipv4_forward ipv6_forward eb tu v4 v6
          found in
      let stopped : update I (noting a) config old new run ≡ (err e, after) = ground arith in
      let dropped =
        or_cleanup_failed config new (update I (noting a) config old new) run after e stopped in
      (dropped.0 ∙ calls, dropped.1)
