-- ===== src/Dhcp/Capture/Filter.antt =====
-- Which frames src/dhcpv6/capture.rs lets through, and that an event carries the prefix of the frame.
use mapecd.Common.{
  ℕ, ◌≤◌, ◌≡◌, ◌↔◌, ◌⊎◌, inl, inr, arith, true, List, [], ◌∷◌, length, take, drop, Option, none,
  some, Option-cases, ok,
}
use mapecd.Map.Net.{Ipnet}
use mapecd.Dhcp.Rules.{address_of}
use mapecd.Dhcp.Prefix.{parse_ia_pd}
use mapecd.Daemon.Runner.{Event, ia_pd_received, both, lease}
use mapecd.Dhcp.Capture.{
  is_multicast, passes_dst_filter, Message, decode_opts, event_of, process_prefix, process_message,
  process_payload, process_frame,
}

-- With the link-local address known, a frame passes exactly where it is long enough to hold an IPv6
-- destination and the destination is a multicast address or that address.
pub passes_dst_filter_iff :
    (frame : List ℕ) (ll : ℕ)
    → (passes_dst_filter frame (some ll) ≡ true) ↔ (
        (54 ≤ length frame)
        × ((is_multicast (take 16 (drop 38 frame)) ≡ true)
            ⊎ (address_of 16 (take 16 (drop 38 frame)) ≡ ll)))
unfolding passes_dst_filter
passes_dst_filter_iff frame ll = ground arith

abbrev pub prefix_of : (I : Ipnet) → Event I → I.Ipv6Net
prefix_of I (ia_pd_received prefix) = prefix
prefix_of I (both rules prefix) = prefix
prefix_of I (lease prefix) = prefix

module _ (I : Ipnet) (decode : List ℕ → Option Message) where
  event_of_prefix :
      (payload : List ℕ) (prefix : I.Ipv6Net) (event : Event I)
      → event_of I decode payload prefix ≡ ok (some event)
      → prefix_of I event ≡ prefix
  unfolding event_of
  event_of_prefix payload prefix event h = ground arith

  process_prefix_event :
      (payload : List ℕ) (event : Event I)
      → process_prefix I decode payload ≡ ok (some event)
      → parse_ia_pd I (decode_opts I decode) payload none ≡ some (prefix_of I event)
  unfolding process_prefix
  process_prefix_event payload event h =
      elim (Option-cases (parse_ia_pd I (decode_opts I decode) payload none)) [
        | inl missing ↦ absurd (ground arith)
        | inr (prefix, found) ↦
            let sent : event_of I decode payload prefix ≡ ok (some event) = ground arith in
            let same = event_of_prefix payload prefix event sent in rw same found
      ]

  process_payload_event :
      (payload : List ℕ) (event : Event I)
      → process_payload I decode payload ≡ ok (some event)
      → process_prefix I decode payload ≡ ok (some event)
  unfolding process_payload process_message
  process_payload_event [] event h = absurd cc
  process_payload_event (msg_type ∷ rest) event h = ground arith

  -- An event is sent only for a frame of at least 63 bytes that passes the filter, and it carries the
  -- delegated prefix that `parse_ia_pd` reads from the frame's DHCPv6 payload.
  pub process_frame_event :
      (frame : List ℕ) (our_ll_addr : Option ℕ) (event : Event I)
      → process_frame I decode frame our_ll_addr ≡ ok (some event)
      → (63 ≤ length frame)
        × (passes_dst_filter frame our_ll_addr ≡ true)
        × (parse_ia_pd I (decode_opts I decode) (drop 62 frame) none ≡ some (prefix_of I event))
  unfolding process_frame
  process_frame_event frame our_ll_addr event h =
      let payload : process_payload I decode (drop 62 frame) ≡ ok (some event) = ground arith in
      (
        ground arith,
        ground arith,
        process_prefix_event (drop 62 frame) event
            (process_payload_event (drop 62 frame) event payload),
      )
