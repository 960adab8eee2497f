-- ===== src/Daemon/Lifecycle/Updates.antt =====
-- What `update` of src/daemon/lifecycle.rs does to the daemon's state, on any host.
use mapecd.Common.{◌≡◌, arith, Res, ok}
use mapecd.Map.Net.{Ipnet}
use mapecd.Map.Rule.{MapeError, MapeParams}
use mapecd.Daemon.State.{DaemonState}
use mapecd.Daemon.Host.{Text, Host, Config}
use mapecd.Daemon.Monad.{Run}
use mapecd.Daemon.Lifecycle.{
  apply_ruleset, apply_step6_nftables, require_tunnel, recreate_tunnel_and_apply,
}
use mapecd.Daemon.Lifecycle.Change.{
  update_ce_ipv6, update_ipv4, update_changed, update_config_map, update,
}
use mapecd.Daemon.Lifecycle.Effects.{IsUp, IsKept, recreate_keeps, recreate-IsUp}

module _ (I : Ipnet) (H : Host) where
  -- What a step of `update` does to the state of a run in which the host is configured.
  pub record IsSafe (s : DaemonState I Text H.Ebpf) (m : Res MapeError Unit × Run I H)
      : Type 0 where
    pub kept : IsKept I H s m.1.state
    pub up : m.0 ≡ ok tt → IsUp I H s → IsUp I H m.1.state

  step6-IsSafe :
      (config : Config) (new : MapeParams I) (run : Run I H)
      → IsSafe run.state (apply_step6_nftables I H config new run)
  unfolding apply_step6_nftables apply_ruleset
  step6-IsSafe config new run = ground arith

  recreate-IsSafe :
      (config : Config) (new : MapeParams I) (run : Run I H)
      → IsSafe run.state (recreate_tunnel_and_apply I H config new run)
  recreate-IsSafe config new run = record {
    kept = recreate_keeps I H config new run;
    up = λ e up. recreate-IsUp I H config new run up e;
  }

  update_ipv4-IsSafe :
      (config : Config) (old new : MapeParams I) (run : Run I H)
      → IsSafe run.state (update_ipv4 I H config old new run)
  unfolding update_ipv4 require_tunnel apply_step6_nftables apply_ruleset
  update_ipv4-IsSafe config old new run = ground arith

  update_ce_ipv6-IsSafe :
      (config : Config) (old new : MapeParams I) (run : Run I H)
      → IsSafe run.state (update_ce_ipv6 I H config old new run)
  unfolding update_ce_ipv6
  update_ce_ipv6-IsSafe config old new run = grind (arith, recreate-IsSafe config new)

  update_changed-IsSafe :
      (config : Config) (old new : MapeParams I) (run : Run I H)
      → IsSafe run.state (update_changed I H config old new run)
  unfolding update_changed
  update_changed-IsSafe config old new run = ground (
    arith,
    update_ce_ipv6-IsSafe config old new run,
    recreate-IsSafe config new run,
    update_ipv4-IsSafe config old new run,
    step6-IsSafe config new run,
  )

  pub update-IsSafe :
      (config : Config) (old new : MapeParams I) (run : Run I H)
      → IsSafe run.state (update I H config old new run)
  unfolding update update_config_map
  update-IsSafe config old new run = ground (arith, update_changed-IsSafe config old new run)
