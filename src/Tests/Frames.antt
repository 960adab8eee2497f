-- ===== src/Tests/Frames.antt =====
-- Runs of the theorems on src/dhcpv6/capture.rs and src/config.rs.
use mapecd.Common.{
  ℕ, ◌*◌, ◌^◌, ◌≤◌, ◌≡◌, ◌↔◌, refl, leb, ◌&&◌, Bool, true, false, List, [], ◌∷◌, ◌++◌, length, drop,
  Option, none, some, ok,
}
use mapecd.Dhcp.Rules.{ia_pd, address_of, find_container, parse_mape_container}
use mapecd.Dhcp.Prefix.{
  ia_prefix, find_iapd_from, find_iapd, find_iaprefix, statuses_succeed, build_ia_prefix, info_of,
  info_of_iapd, info_of_options, parse_ia_pd_info, parse_ia_pd,
}
use mapecd.Dhcp.Capture.{
  is_multicast, passes_dst_filter, Message, decode_opts, event_of, process_prefix, process_message,
  process_payload, process_frame,
}
use mapecd.Dhcp.Capture.Filter.{prefix_of, process_frame_event}
use mapecd.Daemon.Host.{Config}
use mapecd.Daemon.Runner.{Event, ia_pd_received}
use mapecd.Settings.{validate}
use mapecd.Settings.Accepted.{IsUsableConfig, validate-IsUsableConfig}
use mapecd.Tests.Network.{networks}

abbrev ten : List ℕ
ten = 0 ∷ 0 ∷ 0 ∷ 0 ∷ 0 ∷ 0 ∷ 0 ∷ 0 ∷ 0 ∷ 0 ∷ []

-- A frame to ff02::…, with the byte of a Reply behind its headers.
abbrev frame : List ℕ
frame =
    ten
    ++ (ten
        ++ (ten ++ (0 ∷ 0 ∷ 0 ∷ 0 ∷ 0 ∷ 0 ∷ 0 ∷ 0 ∷ 0xff ∷ 2 ∷ (ten ++ (ten ++ (0 ∷ 0 ∷ 7 ∷ []))))))

abbrev decode : List ℕ → Option Message
decode _ = some (record {
  is_reply = true;
  status = none;
  opts =
      ia_pd (record {
        id = 1;
        t1 = 0;
        t2 = 0;
        opts =
            ia_prefix (record {
              prefix_ip = 0x20010db800123400 * 2 ^ 64;
              prefix_len = 56;
              valid_lifetime = 86400;
            })
            ∷ [];
      })
      ∷ [];
})

abbrev event : Event networks
event = ia_pd_received (0x20010db800123400 * 2 ^ 64, 56)

processed : process_frame networks decode frame (some 1) ≡ ok (some event)
unfolding process_frame passes_dst_filter is_multicast process_payload process_message
    process_prefix parse_ia_pd parse_ia_pd_info decode_opts info_of_options find_iapd find_iapd_from
    info_of_iapd find_iaprefix statuses_succeed info_of build_ia_prefix event_of
    parse_mape_container find_container address_of
processed = refl

process_frame_event_example :
    (63 ≤ length frame)
    × (passes_dst_filter frame (some 1) ≡ true)
    × (parse_ia_pd networks (decode_opts networks decode) (drop 62 frame) none
        ≡ some (prefix_of networks event))
process_frame_event_example = process_frame_event networks decode frame (some 1) event processed

abbrev lower_case : ℕ → Bool
lower_case c = leb 97 c && leb c 122

abbrev config : Config
config = record {
  upstream_interface = 101 ∷ [];
  tunnel_interface = 116 ∷ [];
  tunnel_mtu = some 1460;
  use_v6plus_static_rules = false;
  map_rules_cache_file = [];
}

validate-IsUsableConfig_example :
    (validate lower_case config ≡ ok tt) ↔ IsUsableConfig lower_case config
validate-IsUsableConfig_example = validate-IsUsableConfig lower_case config
