-- ===== src/Dhcp/Client/Exchange.antt =====
-- The exchange of src/dhcpv6/client.rs that gets a lease: `do_initial_exchange`. A loop has a bound on
-- its rounds, and ends with `unfinished` there.
pub mod Heard
pub mod Accepted
pub mod Backoff
use mapecd.Common.{ℕ, zero, suc, ◌+◌, ◌*◌, ◌/◌, ◌^◌, min, List, Option, none, some}
use mapecd.Map.Net.{Ipnet}
use mapecd.Dhcp.Client.Message.{
  DhcpMessage, Dhcproto, parse_advertise, parse_reply, extract_server_duid, extract_ia_pd,
}
use mapecd.Dhcp.Client.Build.{build_oro, encode_msg, build_solicit, build_request}
use mapecd.Dhcp.Client.Lease.{failure, unfinished, LeaseInfo, process_reply}
use mapecd.Dhcp.Client.Network.{
  Selected, received, timed_out, recv_failed, cancelled, Network, Action, pure, raise, call, lift,
  require, try_call, ◌>>=◌, ◌>>◌, from_secs, all_dhcp_relay_agents,
}

abbrev pub sol_timeout : ℕ
sol_timeout = 1

abbrev pub sol_max_rt : ℕ
sol_max_rt = 120

-- `rt` seconds times 0.9 + 0.2 * r, in nanoseconds, where r is `random` 2 ^ 53rds. The program
-- computes in `f64`, the model without its rounding.
unfoldable pub jitter_rt : ℕ → ℕ → ℕ
jitter_rt rt random = rt * (9 * 2 ^ 53 + 2 * random) * 10 ^ 8 / 2 ^ 53

-- `(rt * 2).min(SOL_MAX_RT)`
unfoldable pub next_rt : ℕ → ℕ
next_rt rt = min (rt * 2) sol_max_rt

module _ (I : Ipnet) (D : Dhcproto) (N : Network I) where
  -- What follows a wait for the Advertise; `again` is the next round.
  unfoldable pub solicit_selected :
      ℕ
      → ℕ
      → (ℕ → Action N.World (Option (DhcpMessage D.Iapd D.Other)))
      → Selected
      → Action N.World (Option (DhcpMessage D.Iapd D.Other))
  solicit_selected xid rt again (received bytes) = elim (parse_advertise D bytes xid) [
    | some msg ↦ pure (some msg)
    | none ↦ again rt
  ]
  solicit_selected xid rt again timed_out = again (next_rt rt)
  solicit_selected xid rt again recv_failed = raise failure
  solicit_selected xid rt again cancelled = pure none

  -- `none` where the client is cancelled.
  unfoldable pub solicit_loop :
      ℕ → List ℕ → ℕ → ℕ → Action N.World (Option (DhcpMessage D.Iapd D.Other))
  solicit_loop zero solicit_data xid rt = raise unfinished
  solicit_loop (suc rounds) solicit_data xid rt =
      let again = solicit_loop rounds solicit_data xid in
      (do
        try_call (N.send_to solicit_data all_dhcp_relay_agents)
        random ← call N.random_f64
        selected ← call (N.select (jitter_rt rt random))
        solicit_selected xid rt again selected)

  unfoldable pub request_selected :
      ℕ
      → Action N.World (Option (DhcpMessage D.Iapd D.Other))
      → Selected
      → Action N.World (Option (DhcpMessage D.Iapd D.Other))
  request_selected req_xid again (received bytes) = elim (parse_reply D bytes req_xid) [
    | some msg ↦ pure (some msg)
    | none ↦ again
  ]
  request_selected req_xid again timed_out = again
  request_selected req_xid again recv_failed = raise failure
  request_selected req_xid again cancelled = pure none

  unfoldable pub request_loop :
      ℕ → List ℕ → ℕ → Action N.World (Option (DhcpMessage D.Iapd D.Other))
  request_loop zero request_data req_xid = raise unfinished
  request_loop (suc rounds) request_data req_xid =
      let again = request_loop rounds request_data req_xid in
      (do
        try_call (N.send_to request_data all_dhcp_relay_agents)
        selected ← call (N.select (from_secs 10))
        request_selected req_xid again selected)

  -- From the Reply on.
  unfoldable pub lease_of_reply :
      ℕ → List ℕ → DhcpMessage D.Iapd D.Other → Action N.World (Option (LeaseInfo I D))
  lease_of_reply iaid server_duid reply_msg = do
    raw_data ← require (encode_msg D reply_msg)
    lease ← lift (process_reply I D raw_data iaid server_duid)
    pure (some lease)

  -- From the Advertise on.
  unfoldable pub request_lease :
      ℕ → List ℕ → ℕ → DhcpMessage D.Iapd D.Other → Action N.World (Option (LeaseInfo I D))
  request_lease rounds duid iaid adv_msg = do
    server_duid ← require (extract_server_duid D adv_msg)
    ia_pd_from_adv ← require (extract_ia_pd D adv_msg)
    req_xid ← call N.random_xid
    request_data ← require (build_request D duid server_duid req_xid ia_pd_from_adv build_oro)
    reply_msg ← request_loop rounds request_data req_xid
    elim reply_msg [ none ↦ pure none | some msg ↦ lease_of_reply iaid server_duid msg ]

  unfoldable pub do_initial_exchange : ℕ → List ℕ → ℕ → Action N.World (Option (LeaseInfo I D))
  do_initial_exchange rounds duid iaid = do
    xid ← call N.random_xid
    solicit_data ← require (build_solicit D duid iaid xid build_oro)
    adv_msg ← solicit_loop rounds solicit_data xid sol_timeout
    elim adv_msg [ none ↦ pure none | some msg ↦ request_lease rounds duid iaid msg ]
