-- ===== src/Daemon/Lifecycle/Effects.antt =====
-- What the operations of src/daemon/lifecycle.rs do to the daemon's state, on any host.
use mapecd.Common.{◌≡◌, ◌≢◌, arith, none, ok}
use mapecd.Map.Net.{Ipnet}
use mapecd.Map.Rule.{MapeParams}
use mapecd.Daemon.State.{DaemonState}
use mapecd.Daemon.Host.{Text, Host, Config}
use mapecd.Daemon.Monad.{Run}
use mapecd.Daemon.Sysctl.{read_sysctl, write_sysctl}
use mapecd.Daemon.Lifecycle.{
  apply_ruleset, apply_step2_add_ipv6, tunnel_mtu_of, apply_step3_create_tunnel, apply_step5_5_ebpf,
  apply_step6_nftables, require_tunnel, apply_steps_from_4, apply, unlink_ebpf, delete_old_tunnel,
  recreate_tunnel_and_apply,
}
use mapecd.Daemon.Lifecycle.Change.{cleanup_tunnel, restore_sysctl, cleanup}

module _ (I : Ipnet) (H : Host) where
  -- Nothing of the host's configuration is remembered.
  abbrev pub torn_down : DaemonState I Text H.Ebpf → DaemonState I Text H.Ebpf
  torn_down s = record s {
    tunnel_ifindex = none;
    original_ip_forward = none;
    original_ipv6_forward = none;
    ebpf = none;
  }

  -- Whatever the host answers, `cleanup` succeeds, forgets the tunnel, the eBPF manager and the two
  -- saved sysctl values, and changes no other field of the state.
  pub cleanup_forgets :
      (config : Config) (params : MapeParams I) (run : Run I H)
      → ((cleanup I H config params run).0 ≡ ok tt)
        × ((cleanup I H config params run).1.state ≡ torn_down run.state)
  unfolding cleanup cleanup_tunnel restore_sysctl unlink_ebpf
  cleanup_forgets config params run = ground arith

  -- Every part of the host's configuration is remembered.
  pub record IsUp (s : DaemonState I Text H.Ebpf) : Type 0 where
    pub tunnel : s.tunnel_ifindex ≢ none
    pub ip_forward : s.original_ip_forward ≢ none
    pub ipv6_forward : s.original_ipv6_forward ≢ none
    pub manager : s.ebpf ≢ none

  -- The inputs and the parameters are untouched.
  pub record IsKept (s s' : DaemonState I Text H.Ebpf) : Type 0 where
    pub rules : s'.pending_map_rules ≡ s.pending_map_rules
    pub prefix : s'.pending_ia_pd ≡ s.pending_ia_pd
    pub params : s'.params ≡ s.params

  pub apply_keeps :
      (config : Config) (params : MapeParams I) (run : Run I H)
      → IsKept run.state (apply I H config params run).1.state
  unfolding apply read_sysctl write_sysctl apply_step2_add_ipv6 apply_step3_create_tunnel
      tunnel_mtu_of apply_steps_from_4 require_tunnel apply_step5_5_ebpf apply_step6_nftables
      apply_ruleset
  apply_keeps config params run = ground arith

  -- Whatever the host answers, an `apply` that succeeds leaves the tunnel, both saved sysctl values
  -- and the eBPF manager in the state, so that `cleanup` finds them.
  pub apply-IsUp :
      (config : Config) (params : MapeParams I) (run : Run I H)
      → (apply I H config params run).0 ≡ ok tt
      → IsUp (apply I H config params run).1.state
  unfolding apply read_sysctl write_sysctl apply_step2_add_ipv6 apply_step3_create_tunnel
      tunnel_mtu_of apply_steps_from_4 require_tunnel apply_step5_5_ebpf apply_step6_nftables
      apply_ruleset
  apply-IsUp config params run h = ground arith

  pub recreate_keeps :
      (config : Config) (new : MapeParams I) (run : Run I H)
      → IsKept run.state (recreate_tunnel_and_apply I H config new run).1.state
  unfolding recreate_tunnel_and_apply delete_old_tunnel unlink_ebpf apply_step3_create_tunnel
      tunnel_mtu_of apply_steps_from_4 require_tunnel apply_step5_5_ebpf apply_step6_nftables
      apply_ruleset
  recreate_keeps config new run = ground arith

  pub recreate-IsUp :
      (config : Config) (new : MapeParams I) (run : Run I H)
      → IsUp run.state
      → (recreate_tunnel_and_apply I H config new run).0 ≡ ok tt
      → IsUp (recreate_tunnel_and_apply I H config new run).1.state
  unfolding recreate_tunnel_and_apply delete_old_tunnel unlink_ebpf apply_step3_create_tunnel
      tunnel_mtu_of apply_steps_from_4 require_tunnel apply_step5_5_ebpf apply_step6_nftables
      apply_ruleset
  recreate-IsUp config new run up h = ground arith
