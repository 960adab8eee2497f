-- ===== src/Dhcp/Capture.antt =====
-- `passes_dst_filter` and `process_frame` of src/dhcpv6/capture.rs: what a captured frame makes the
-- daemon do.
pub mod Filter
use mapecd.Common.{
  ℕ, ◌==◌, ltb, not, if◌then◌else◌, Bool, true, false, ◌||◌, List, [], ◌∷◌, length, take, drop,
  Option, none, some, Res, ok, err, panic,
}
use mapecd.Map.Net.{Ipnet}
use mapecd.Dhcp.Rules.{DhcpOption, address_of, parse_mape_container}
use mapecd.Dhcp.Prefix.{IaPd, parse_ia_pd}
use mapecd.Daemon.Runner.{Event, ia_pd_received, both}

-- The first octet of an address of 16 bytes is 0xff.
unfoldable pub is_multicast : List ℕ → Bool
is_multicast [] = false
is_multicast (octet ∷ octets) = octet == 0xff

unfoldable pub passes_dst_filter : List ℕ → Option ℕ → Bool
passes_dst_filter frame our_ll_addr = if ltb (length frame) 54 then false else elim our_ll_addr [
  | none ↦ true
  | some ll ↦
      let octets = take 16 (drop 38 frame) in is_multicast octets || address_of 16 octets == ll
]

-- `Message` of dhcproto, as far as it is read: whether its type is Reply, whether a status code at
-- the top level is `Success`, and the options.
pub record Message : Type 0 where
  pub is_reply : Bool
  pub status : Option Bool
  pub opts : List (DhcpOption IaPd)

-- `decode` is dhcproto's `Message::decode`.
module _ (I : Ipnet) (decode : List ℕ → Option Message) where
  unfoldable pub decode_opts : List ℕ → Option (List (DhcpOption IaPd))
  decode_opts bytes = elim (decode bytes) [ none ↦ none | some msg ↦ some msg.opts ]

  -- `match parse_mape_container(…)`: what is sent.
  unfoldable pub event_of : List ℕ → I.Ipv6Net → Res Unit (Option (Event I))
  event_of dhcp_payload ia_pd_prefix = elim (parse_mape_container I decode_opts dhcp_payload) [
    | ok container ↦ elim container [
      | none ↦ ok (some (ia_pd_received ia_pd_prefix))
      | some rules ↦ ok (some (both rules ia_pd_prefix))
    ]
    | err _ ↦ ok (some (ia_pd_received ia_pd_prefix))
    | panic ↦ panic
  ]

  -- From the search for the IA_PD on.
  unfoldable pub process_prefix : List ℕ → Res Unit (Option (Event I))
  process_prefix dhcp_payload = elim (parse_ia_pd I decode_opts dhcp_payload none) [
    | none ↦ ok none
    | some ia_pd_prefix ↦ event_of dhcp_payload ia_pd_prefix
  ]

  -- A status code at the top level that is not `Success` ends the processing.
  unfoldable pub process_message : List ℕ → Message → Res Unit (Option (Event I))
  process_message dhcp_payload msg = if not msg.is_reply then ok none else elim msg.status [
    | none ↦ process_prefix dhcp_payload
    | some success ↦ if success then process_prefix dhcp_payload else ok none
  ]

  -- From the payload on; 7 is the message type Reply.
  unfoldable pub process_payload : List ℕ → Res Unit (Option (Event I))
  process_payload [] = ok none
  process_payload (msg_type ∷ rest) =
      if not (msg_type == 7) then ok none else elim (decode (msg_type ∷ rest)) [
        | none ↦ err tt
        | some msg ↦ process_message (msg_type ∷ rest) msg
      ]

  -- The event that is sent, if one is; `err` is a payload that cannot be decoded.
  unfoldable pub process_frame : List ℕ → Option ℕ → Res Unit (Option (Event I))
  process_frame frame our_ll_addr =
      if ltb (length frame) 63
      then ok none
      else if not (passes_dst_filter frame our_ll_addr)
      then ok none
      else process_payload (drop 62 frame)
