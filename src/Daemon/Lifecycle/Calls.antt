-- ===== src/Daemon/Lifecycle/Calls.antt =====
-- The calls that src/daemon/lifecycle.rs makes, and their order: a host that notes each call, the
-- latest first, and answers as it likes.
use mapecd.Common.{ℕ, ◌≡◌, arith, Bool, List, ◌∷◌, Option, some}
use mapecd.Psid.{PsidConfig}
use mapecd.Map.Net.{Ipnet}
use mapecd.Map.Rule.{MapeParams}
use mapecd.Daemon.Host.{Text, Reply, done, Script, nft_deletion, Host, Config}
use mapecd.Daemon.Monad.{Run}
use mapecd.Daemon.Sysctl.{sysctl_ipv4_forward, sysctl_ipv6_forward_all}
use mapecd.Daemon.Lifecycle.{unlink_ebpf}
use mapecd.Daemon.Lifecycle.Change.{delete_ce_ipv6, cleanup_tunnel, restore_sysctl, cleanup}

pub data Call : Type 0 where
  read_file : Text → Call
  write_file : Text → Text → Call
  make_directory : Text → Call
  rename_file : Text → Text → Call
  add_ipv6 : ℕ → ℕ → Call
  del_ipv6 : ℕ → ℕ → Call
  add_ipv4 : ℕ → ℕ → Call
  del_ipv4 : ℕ → ℕ → Call
  link_mtu : Text → Call
  link_index : Text → Call
  create_tunnel : Text → ℕ → ℕ → ℕ → ℕ → Call
  remove_link : ℕ → Call
  add_route : ℕ → Call
  del_route : ℕ → Call
  run_nft : Script → Call
  delete_named : Text → Call
  load_ebpf : PsidConfig → Call
  link_ebpf : ℕ → Text → Call
  configure_ebpf : ℕ → PsidConfig → Call
  unlink : ℕ → Call

-- The answers, which may depend on all that was called before.
pub record Answers : Type 0 where
  pub text : List Call → Call → Option Text
  pub written : List Call → Call → Bool
  pub unit : List Call → Call → Reply Unit
  pub number : List Call → Call → Reply ℕ

abbrev pub noting : Answers → Host
noting a = record {
  World = List Call;
  Ebpf = ℕ;
  read_to_string = λ path w. (a.text w (read_file path), read_file path ∷ w);
  read = λ path w. (a.text w (read_file path), read_file path ∷ w);
  write = λ path value w. (a.written w (write_file path value), write_file path value ∷ w);
  create_dir_all = λ path w. (a.written w (make_directory path), make_directory path ∷ w);
  rename = λ path to w. (a.written w (rename_file path to), rename_file path to ∷ w);
  add_ipv6_addr = λ i addr w. (a.unit w (add_ipv6 i addr), add_ipv6 i addr ∷ w);
  del_ipv6_addr = λ i addr w. (a.unit w (del_ipv6 i addr), del_ipv6 i addr ∷ w);
  add_ipv4_addr = λ i addr w. (a.unit w (add_ipv4 i addr), add_ipv4 i addr ∷ w);
  del_ipv4_addr = λ i addr w. (a.unit w (del_ipv4 i addr), del_ipv4 i addr ∷ w);
  get_link_mtu = λ name w. (a.number w (link_mtu name), link_mtu name ∷ w);
  get_link_index = λ name w. (a.number w (link_index name), link_index name ∷ w);
  create_ip6tnl = λ name local remote i mtu w. (
    a.number w (create_tunnel name local remote i mtu),
    create_tunnel name local remote i mtu ∷ w,
  );
  delete_link = λ i w. (a.unit w (remove_link i), remove_link i ∷ w);
  add_ipv4_default_route = λ i w. (a.unit w (add_route i), add_route i ∷ w);
  del_ipv4_default_route_by_oif = λ i w. (a.unit w (del_route i), del_route i ∷ w);
  execute = λ script w. (a.unit w (run_nft script), run_nft script ∷ w);
  ip_link_delete = λ name w. delete_named name ∷ w;
  load = λ config w. (a.number w (load_ebpf config), load_ebpf config ∷ w);
  link_tc = λ e name w. (a.unit w (link_ebpf e name), link_ebpf e name ∷ w);
  update_config = λ e config w. (a.unit w (configure_ebpf e config), configure_ebpf e config ∷ w);
  unlink_tc = λ e w. (a.unit w (unlink e), unlink e ∷ w);
}

-- The calls of `cleanup` up to its look at the upstream interface, the latest first.
abbrev pub tunnel_calls : ℕ → ℕ → ℕ → List Call → List Call
tunnel_calls ebpf oif ipv4 w =
    del_ipv4 oif ipv4 ∷ remove_link oif ∷ del_route oif ∷ unlink ebpf ∷ run_nft nft_deletion ∷ w

module _ (I : Ipnet) (a : Answers) where
  -- Where everything is set up and the upstream interface is found, `cleanup` makes these nine calls
  -- in this order, whatever the others answer: it deletes the nft tables, unlinks the eBPF programs,
  -- deletes the default route, the tunnel and the IPv4 address, looks up the upstream interface,
  -- deletes the CE address there, and writes back the two sysctl values, IPv6 first.
  pub cleanup_calls :
      (config : Config) (params : MapeParams I) (run : Run I (noting a)) (ebpf oif upstream : ℕ)
      (ipv4_forward ipv6_forward : Text)
      → run.state.ebpf ≡ some ebpf
      → run.state.tunnel_ifindex ≡ some oif
      → run.state.original_ip_forward ≡ some ipv4_forward
      → run.state.original_ipv6_forward ≡ some ipv6_forward
      → a.number
          (tunnel_calls ebpf oif params.ipv4 run.world)
          (link_index config.upstream_interface)
        ≡ done upstream
      → (cleanup I (noting a) config params run).1.world
        ≡ write_file sysctl_ipv4_forward ipv4_forward
          ∷ write_file sysctl_ipv6_forward_all ipv6_forward
          ∷ del_ipv6 upstream params.ce_ipv6
          ∷ link_index config.upstream_interface
          ∷ tunnel_calls ebpf oif params.ipv4 run.world
  unfolding cleanup cleanup_tunnel restore_sysctl unlink_ebpf delete_ce_ipv6
  cleanup_calls config params run ebpf oif upstream ipv4_forward ipv6_forward e t v4 v6 found =
      ground arith
