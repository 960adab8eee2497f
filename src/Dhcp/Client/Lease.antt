-- ===== src/Dhcp/Client/Lease.antt =====
-- What a Reply gives: `LeaseInfo` and `process_reply` of src/dhcpv6/client.rs.
use mapecd.Common.{
  ℕ, if◌then◌else◌, is_empty, List, [], Option, none, some, Res, ok, err, panic, ◌>>=◌,
}
use mapecd.Map.Net.{Ipnet}
use mapecd.Map.Rule.{MapRule}
use mapecd.Daemon.Runner.{Event, ia_pd_received, both}
use mapecd.Dhcp.Rules.{parse_mape_container}
use mapecd.Dhcp.Prefix.{IaPdInfo, parse_ia_pd_info}
use mapecd.Dhcp.Client.Message.{
  DhcpMessage, Dhcproto, get_status, get_server_unicast, decode_options, status_passes,
}

-- The error that ends a function (`anyhow::Error`), or the end of the rounds that a loop was given.
pub data Stop : Type 0 where
  failure : Stop
  unfinished : Stop

module _ (I : Ipnet) (D : Dhcproto) where
  pub record LeaseInfo : Type 0 where
    pub prefix : I.Ipv6Net
    pub t1 : ℕ
    pub t2 : ℕ
    pub valid_lifetime : ℕ
    pub rules : List (MapRule I)
    pub server_duid : List ℕ
    -- The address; the port is 547.
    pub server_unicast : Option ℕ
    pub ia_pd_for_release : D.Iapd

  -- The rules of a Reply: none where it has no container or one that cannot be read.
  unfoldable pub rules_of : List ℕ → Res Stop (List (MapRule I))
  rules_of raw_data = elim (parse_mape_container I (decode_options D) raw_data) [
    | ok container ↦ elim container [ some rules ↦ ok rules | none ↦ ok [] ]
    | err _ ↦ ok []
    | panic ↦ panic
  ]

  -- From the delegated prefix on.
  unfoldable pub lease_of : List ℕ → ℕ → List ℕ → Option ℕ → IaPdInfo I → Res Stop LeaseInfo
  lease_of raw_data iaid server_duid server_unicast ia_pd_info = do
    rules ← rules_of raw_data
    ok (record {
      prefix = ia_pd_info.prefix;
      t1 = ia_pd_info.t1;
      t2 = ia_pd_info.t2;
      valid_lifetime = ia_pd_info.valid_lifetime;
      rules = rules;
      server_duid = server_duid;
      server_unicast = server_unicast;
      ia_pd_for_release = D.new_iapd iaid ia_pd_info.t1 ia_pd_info.t2;
    })

  -- With the message decoded.
  unfoldable pub process_reply_message :
      List ℕ → ℕ → List ℕ → DhcpMessage D.Iapd D.Other → Res Stop LeaseInfo
  process_reply_message raw_data iaid server_duid msg =
      if status_passes D (get_status D msg.opts)
      then elim (parse_ia_pd_info I (decode_options D) raw_data (some iaid)) [
        | none ↦ err failure
        | some ia_pd_info ↦
            lease_of raw_data iaid server_duid (get_server_unicast D msg.opts) ia_pd_info
      ]
      else err failure

  unfoldable pub process_reply : List ℕ → ℕ → List ℕ → Res Stop LeaseInfo
  process_reply raw_data iaid server_duid = elim (D.decode raw_data) [
    | none ↦ err failure
    | some msg ↦ process_reply_message raw_data iaid server_duid msg
  ]

  -- The event of a first lease, and that of a renewed one.
  unfoldable pub lease_event : LeaseInfo → Event I
  lease_event lease = both lease.rules lease.prefix

  unfoldable pub renewal_event : LeaseInfo → Event I
  renewal_event new_lease =
      if is_empty new_lease.rules
      then ia_pd_received new_lease.prefix
      else both new_lease.rules new_lease.prefix
