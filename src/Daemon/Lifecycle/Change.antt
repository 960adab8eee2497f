-- ===== src/Daemon/Lifecycle/Change.antt =====
-- `update`, `cleanup` and `has_changed` of src/daemon/lifecycle.rs.
use mapecd.Common.{
  ℕ, ◌==◌, if◌then◌else◌, Bool, true, false, not, ◌||◌, ◌&&◌, List, [], ◌∷◌, Option, none, ok, err,
  panic,
}
use mapecd.Map.Net.{Ipnet}
use mapecd.Map.Rule.{PortParams, PortRange, MapeParams}
use mapecd.Daemon.Host.{Text, Reply, done, failed, nft_deletion, Host, Config}
use mapecd.Daemon.Monad.{Method, pure, call, attempt, gets, modify, lift, when_some, ◌>>=◌, ◌>>◌}
use mapecd.Daemon.Sysctl.{sysctl_ipv4_forward, sysctl_ipv6_forward_all, write_call}
use mapecd.Daemon.Lifecycle.{
  psid_config_from_params, apply_step6_nftables, require_tunnel, unlink_ebpf,
  recreate_tunnel_and_apply,
}

-- `==` of `RangeInclusive<u16>` (none here is exhausted), of a list of them, and of `PortParams`.
unfoldable pub range_eq : PortRange → PortRange → Bool
range_eq r r' = r.start == r'.start && r.last == r'.last

unfoldable pub ranges_eq : List PortRange → List PortRange → Bool
ranges_eq [] [] = true
ranges_eq (r ∷ rs) (r' ∷ rs') = range_eq r r' && ranges_eq rs rs'
ranges_eq _ _ = false

unfoldable pub port_params_eq : PortParams → PortParams → Bool
port_params_eq p p' = p.psid_offset == p'.psid_offset && p.psid_length == p'.psid_length

unfoldable pub has_changed : (I : Ipnet) → MapeParams I → MapeParams I → Bool
has_changed I old new =
    not (old.ce_ipv6 == new.ce_ipv6)
    || not (old.ipv4 == new.ipv4)
    || not (old.psid == new.psid)
    || not (old.br_address == new.br_address)
    || not (ranges_eq old.port_ranges new.port_ranges)
    || not (port_params_eq old.rule.port_params new.rule.port_params)

module _ (I : Ipnet) (H : Host) where
  -- The arm of `update` for a changed CE address.
  unfoldable pub update_ce_ipv6 : Config → MapeParams I → MapeParams I → Method I H Unit
  update_ce_ipv6 config old new = do
    upstream_ifindex ← call I H (H.get_link_index config.upstream_interface)
    attempt I H (H.del_ipv6_addr upstream_ifindex old.ce_ipv6)
    call I H (H.add_ipv6_addr upstream_ifindex new.ce_ipv6)
    recreate_tunnel_and_apply I H config new

  -- The arm for a changed IPv4 address.
  unfoldable pub update_ipv4 : Config → MapeParams I → MapeParams I → Method I H Unit
  update_ipv4 config old new = do
    tunnel_ifindex ← require_tunnel I H
    attempt I H (H.del_ipv4_addr tunnel_ifindex old.ipv4)
    call I H (H.add_ipv4_addr tunnel_ifindex new.ipv4)
    call I H (H.add_ipv4_default_route tunnel_ifindex)
    apply_step6_nftables I H config new

  unfoldable pub update_changed : Config → MapeParams I → MapeParams I → Method I H Unit
  update_changed config old new =
      if not (old.ce_ipv6 == new.ce_ipv6)
      then update_ce_ipv6 config old new
      else if not (old.br_address == new.br_address)
      then recreate_tunnel_and_apply I H config new
      else if not (old.ipv4 == new.ipv4)
      then update_ipv4 config old new
      else apply_step6_nftables I H config new

  -- The last step of `update`: CONFIG_MAP.
  unfoldable pub update_config_map : MapeParams I → H.Ebpf → Method I H Unit
  update_config_map new ebpf = elim (psid_config_from_params I new) [
    | ok config ↦ attempt I H (H.update_config ebpf config)
    | err _ ↦ pure I H tt
    | panic ↦ lift I H panic
  ]

  unfoldable pub update : Config → MapeParams I → MapeParams I → Method I H Unit
  update config old new = do
    update_changed config old new
    ebpf ← gets I H (λ s. s.ebpf)
    when_some I H ebpf (update_config_map new)

  -- `get_link_index` and the deletion behind it, with both errors dropped.
  unfoldable pub delete_ce_ipv6 : Config → MapeParams I → H.World → Reply Unit × H.World
  delete_ce_ipv6 config params world =
      let (reply, world') = H.get_link_index config.upstream_interface world in
      elim reply [
        | done upstream_ifindex ↦ H.del_ipv6_addr upstream_ifindex params.ce_ipv6 world'
        | failed e ↦ (failed e, world')
      ]

  -- Steps 2 to 4 of `cleanup`, for the tunnel that the state names.
  unfoldable pub cleanup_tunnel : MapeParams I → ℕ → Method I H Unit
  cleanup_tunnel params oif = do
    attempt I H (H.del_ipv4_default_route_by_oif oif)
    attempt I H (H.delete_link oif)
    modify I H (λ s. record s { tunnel_ifindex = none })
    attempt I H (H.del_ipv4_addr oif params.ipv4)

  -- Step 6: one saved value.
  unfoldable pub restore_sysctl : Text → Option Text → Method I H Unit
  restore_sysctl path saved = when_some I H saved (λ value. attempt I H (write_call I H path value))

  unfoldable pub cleanup : Config → MapeParams I → Method I H Unit
  cleanup config params = do
    tunnel_ifindex ← gets I H (λ s. s.tunnel_ifindex)
    attempt I H (H.execute nft_deletion)
    unlink_ebpf I H
    when_some I H tunnel_ifindex (cleanup_tunnel params)
    attempt I H (delete_ce_ipv6 config params)
    ipv6_forward ← gets I H (λ s. s.original_ipv6_forward)
    modify I H (λ s. record s { original_ipv6_forward = none })
    restore_sysctl sysctl_ipv6_forward_all ipv6_forward
    ipv4_forward ← gets I H (λ s. s.original_ip_forward)
    modify I H (λ s. record s { original_ip_forward = none })
    restore_sysctl sysctl_ipv4_forward ipv4_forward
