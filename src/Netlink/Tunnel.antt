-- ===== src/Netlink/Tunnel.antt =====
-- The making of the tunnel in src/netlink/tunnel.rs.
use mapecd.Common.{ℕ, zero, suc, ◌*◌, ◌/◌, ◌%◌, ◌^◌, ◌++◌, List, [], ◌∷◌}
use mapecd.Map.Rule.{netlink_error}
use mapecd.Daemon.Host.{Text, Reply, done, failed}
use mapecd.Netlink.{
  NewLink, Payload, error_payload, other_payload, Kernel, Call, ◌>>=◌, pure, request,
  get_link_index,
}

abbrev pub ifla_iptun_link : ℕ
ifla_iptun_link = 1

abbrev pub ifla_iptun_local : ℕ
ifla_iptun_local = 2

abbrev pub ifla_iptun_remote : ℕ
ifla_iptun_remote = 3

abbrev pub ifla_iptun_encap_limit : ℕ
ifla_iptun_encap_limit = 6

abbrev pub ifla_iptun_proto : ℕ
ifla_iptun_proto = 9

abbrev pub ipproto_ipip : ℕ
ipproto_ipip = 4

-- The last octets of an address, the first of them first.
unfoldable pub octets : ℕ → ℕ → List ℕ
octets zero addr = []
octets (suc k) addr = addr / 2 ^ (8 * k) % 2 ^ 8 ∷ octets k addr

-- The loop over the responses.
unfoldable pub check_responses : List Payload → Reply Unit
check_responses [] = done tt
check_responses (error_payload ∷ responses) = failed netlink_error
check_responses (other_payload ∷ responses) = check_responses responses

module _ (K : Kernel) where
  unfoldable pub encode_ip6tnl_data : ℕ → ℕ → ℕ → ℕ → List ℕ
  encode_ip6tnl_data local remote link_index encaplimit =
      K.emit ifla_iptun_link (K.to_ne_bytes link_index)
      ++ (K.emit ifla_iptun_local (octets 16 local)
          ++ (K.emit ifla_iptun_remote (octets 16 remote)
              ++ (K.emit ifla_iptun_proto (ipproto_ipip ∷ [])
                  ++ K.emit ifla_iptun_encap_limit (encaplimit ∷ []))))

  unfoldable pub send_newlink : NewLink → Call K.World Unit
  send_newlink msg = do responses ← request (K.new_link msg); λ w. (check_responses responses, w)

  unfoldable pub create_ip6tnl : Text → ℕ → ℕ → ℕ → ℕ → Call K.World ℕ
  create_ip6tnl name local remote link_index mtu = do
    let info_data_bytes = encode_ip6tnl_data local remote link_index 0
    _ ← send_newlink (record { if_name = name; mtu = mtu; info_data = info_data_bytes })
    ifindex ← get_link_index K name
    _ ← request (K.set_up ifindex)
    pure ifindex
