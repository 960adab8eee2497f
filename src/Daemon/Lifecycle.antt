-- ===== src/Daemon/Lifecycle.antt =====
-- src/daemon/lifecycle.rs, with `apply_ruleset` and `delete_tables` of src/nftables/manager.rs and
-- `psid_config_from_params` of src/ebpf/manager.rs.
pub mod Change
pub mod Changed
pub mod Effects
pub mod Updates
pub mod Calls
use mapecd.Common.{
  ℕ, ◌-◌, max, ◌+◌, ◌*◌, ◌^◌, ◌==◌, ltb, leb, if◌then◌else◌, Bool, true, false, not, ◌||◌, ◌&&◌,
  List, [], ◌∷◌, is_empty, Option, none, some, Res, ok, err, panic,
}
use mapecd.Psid.{PsidConfig, try_new}
use mapecd.Map.Net.{Ipnet}
use mapecd.Map.Rule.{
  MapeError, netlink_error, ebpf_error, empty_port_ranges, PortParams, PortRange, MapRule,
  MapeParams,
}
use mapecd.Map.PortSet.{calc_port_ranges}
use mapecd.Daemon.State.{DaemonState}
use mapecd.Daemon.Host.{Text, Reply, Script, nft_ruleset, nft_deletion, Host, Config}
use mapecd.Daemon.Sysctl.{
  sysctl_ipv4_forward, sysctl_ipv6_forward_all, enabled, read_sysctl, write_sysctl, write_call,
}
use mapecd.Daemon.Monad.{
  Run, Method, pure, raise, call, attempt, gets, modify, lift, when_some, ◌>>=◌, ◌>>◌,
}

module _ (I : Ipnet) where
  unfoldable pub psid_config_from_params : MapeParams I → Res MapeError PsidConfig
  psid_config_from_params params =
      let port_params = params.rule.port_params in
      elim (try_new port_params.psid_offset port_params.psid_length params.psid) [
        | ok config ↦ ok config
        | err _ ↦ err ebpf_error
        | panic ↦ panic
      ]

  -- The staging range of the rule set; every port but 0 if there is no configuration.
  unfoldable pub staging_range_of : MapeParams I → Res MapeError (ℕ × ℕ)
  staging_range_of params = elim (psid_config_from_params params) [
    | ok config ↦ ok (config.staging_min, config.staging_max)
    | err _ ↦ ok (1, 65535)
    | panic ↦ panic
  ]

module _ (I : Ipnet) (H : Host) where
  -- src/nftables/manager.rs
  unfoldable pub apply_ruleset : List PortRange → Text → ℕ → ℕ × ℕ → Method I H Unit
  apply_ruleset port_ranges tunnel_interface br_address staging_range =
      if is_empty port_ranges
      then raise I H empty_port_ranges
      else call I H (
          H.execute
            (nft_ruleset port_ranges tunnel_interface br_address staging_range.0 staging_range.1))

  unfoldable pub apply_step2_add_ipv6 : Config → MapeParams I → Method I H Unit
  apply_step2_add_ipv6 config params = do
    upstream_ifindex ← call I H (H.get_link_index config.upstream_interface)
    call I H (H.add_ipv6_addr upstream_ifindex params.ce_ipv6)

  -- `match config.tunnel_mtu`
  unfoldable pub tunnel_mtu_of : Config → Method I H ℕ
  tunnel_mtu_of config = elim config.tunnel_mtu [
    | some m ↦ pure I H m
    | none ↦ (do
      mtu ← call I H (H.get_link_mtu config.upstream_interface)
      pure I H (max (mtu - 40) 1280))
  ]

  unfoldable pub apply_step3_create_tunnel : Config → MapeParams I → Method I H Unit
  apply_step3_create_tunnel config params = do
    upstream_ifindex ← call I H (H.get_link_index config.upstream_interface)
    mtu ← tunnel_mtu_of config
    tunnel_ifindex ← call I H (
        H.create_ip6tnl config.tunnel_interface params.ce_ipv6 params.br_address upstream_ifindex
          mtu)
    modify I H (λ s. record s { tunnel_ifindex = some tunnel_ifindex })

  unfoldable pub apply_step5_5_ebpf : Config → MapeParams I → Method I H Unit
  apply_step5_5_ebpf config params = do
    psid_cfg ← lift I H (psid_config_from_params I params)
    ebpf ← call I H (H.load psid_cfg)
    call I H (H.link_tc ebpf config.tunnel_interface)
    modify I H (λ s. record s { ebpf = some ebpf })

  unfoldable pub apply_step6_nftables : Config → MapeParams I → Method I H Unit
  apply_step6_nftables config params = do
    port_ranges ← lift I H (calc_port_ranges params.rule.port_params params.psid)
    staging_range ← lift I H (staging_range_of I params)
    apply_ruleset port_ranges config.tunnel_interface params.br_address staging_range

  -- `state.tunnel_ifindex.ok_or_else(…)?`
  unfoldable pub require_tunnel : Method I H ℕ
  require_tunnel = do
    tunnel_ifindex ← gets I H (λ s. s.tunnel_ifindex)
    elim tunnel_ifindex [ none ↦ raise I H netlink_error | some oif ↦ pure I H oif ]

  -- Steps 4 to 6 of `apply`, which `recreate_tunnel_and_apply` has as well.
  unfoldable pub apply_steps_from_4 : Config → MapeParams I → Method I H Unit
  apply_steps_from_4 config params = do
    tunnel_ifindex ← require_tunnel
    call I H (H.add_ipv4_addr tunnel_ifindex params.ipv4)
    call I H (H.add_ipv4_default_route tunnel_ifindex)
    apply_step5_5_ebpf config params
    apply_step6_nftables config params

  unfoldable pub apply : Config → MapeParams I → Method I H Unit
  apply config params = do
    orig_ipv4 ← read_sysctl I H sysctl_ipv4_forward
    modify I H (λ s. record s { original_ip_forward = some orig_ipv4 })
    write_sysctl I H sysctl_ipv4_forward enabled
    orig_ipv6 ← read_sysctl I H sysctl_ipv6_forward_all
    modify I H (λ s. record s { original_ipv6_forward = some orig_ipv6 })
    write_sysctl I H sysctl_ipv6_forward_all enabled
    apply_step2_add_ipv6 config params
    apply_step3_create_tunnel config params
    apply_steps_from_4 config params

  -- `if let Some(mut ebpf) = state.ebpf.take()`
  unfoldable pub unlink_ebpf : Method I H Unit
  unlink_ebpf = do
    ebpf ← gets I H (λ s. s.ebpf)
    modify I H (λ s. record s { ebpf = none })
    when_some I H ebpf (λ manager. attempt I H (H.unlink_tc manager))

  -- The old tunnel in `recreate_tunnel_and_apply`.
  unfoldable pub delete_old_tunnel : ℕ → Method I H Unit
  delete_old_tunnel oif = do
    attempt I H (H.del_ipv4_default_route_by_oif oif)
    call I H (H.delete_link oif)
    modify I H (λ s. record s { tunnel_ifindex = none })

  unfoldable pub recreate_tunnel_and_apply : Config → MapeParams I → Method I H Unit
  recreate_tunnel_and_apply config new = do
    unlink_ebpf
    tunnel_ifindex ← gets I H (λ s. s.tunnel_ifindex)
    when_some I H tunnel_ifindex delete_old_tunnel
    apply_step3_create_tunnel config new
    apply_steps_from_4 config new
