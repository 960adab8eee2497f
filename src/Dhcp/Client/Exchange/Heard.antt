-- ===== src/Dhcp/Client/Exchange/Heard.antt =====
-- Where the loops of src/dhcpv6/client.rs that wait for a message have it from.
use mapecd.Common.{
  ℕ, zero, suc, ◌≡◌, refl, arith, true, List, Option, some, ok, Option-cases, inl, inr,
}
use mapecd.Map.Net.{Ipnet}
use mapecd.Dhcp.Client.Message.{
  DhcpMessage, Dhcproto, is_advertise, is_reply, status_passes, get_status, accept_advertise,
  accept_reply, parse_advertise, parse_reply,
}
use mapecd.Dhcp.Client.Network.{
  Selected, received, timed_out, recv_failed, cancelled, Network, all_dhcp_relay_agents, from_secs,
  Action,
}
use mapecd.Dhcp.Client.Exchange.{
  next_rt, jitter_rt, solicit_selected, solicit_loop, request_selected, request_loop,
}

module _ (I : Ipnet) (D : Dhcproto) (N : Network I) where
  pub record IsAdvertise (xid : ℕ) (msg : DhcpMessage D.Iapd D.Other) : Type 0 where
    pub advertised : is_advertise msg.msg_type ≡ true
    pub answers : msg.xid ≡ xid
    pub succeeded : status_passes D (get_status D msg.opts) ≡ true

  pub record IsReply (xid : ℕ) (msg : DhcpMessage D.Iapd D.Other) : Type 0 where
    pub replied : is_reply msg.msg_type ≡ true
    pub answers : msg.xid ≡ xid

  -- The worlds between the rounds of a loop, in each of which the client asks and then waits.
  pub data Rounds (ask : N.World → N.World) (start : N.World) : N.World → Type 0 where
    first : Rounds ask start start
    next :
        (timeout : ℕ) (w : N.World)
        → Rounds ask start w
        → Rounds ask start (N.select timeout (ask w)).1

  -- Where a loop that starts in a world has its message from: a datagram that is received in one of its
  -- rounds, right after the client has asked, and that ends the loop.
  pub record Heard (ask : N.World → N.World) (start : N.World) (msg : DhcpMessage D.Iapd D.Other)
      (after : N.World) : Type 0 where
    pub before : N.World
    pub rounds : Rounds ask start before
    pub timeout : ℕ
    pub bytes : List ℕ
    pub received_then : (N.select timeout (ask before)).0 ≡ received bytes
    pub decoded : D.decode bytes ≡ some msg
    pub ended : after ≡ (N.select timeout (ask before)).1

  -- The Solicit, or the Request, is sent to the relay agents; for the Solicit the jitter is drawn.
  abbrev pub ask_solicit : List ℕ → N.World → N.World
  ask_solicit bytes w = (N.random_f64 (N.send_to bytes all_dhcp_relay_agents w).1).1

  abbrev pub ask_request : List ℕ → N.World → N.World
  ask_request bytes w = (N.send_to bytes all_dhcp_relay_agents w).1

  parse_advertise-IsAdvertise :
      (bytes : List ℕ) (xid : ℕ) (msg : DhcpMessage D.Iapd D.Other)
      → parse_advertise D bytes xid ≡ some msg
      → (D.decode bytes ≡ some msg) × IsAdvertise xid msg
  unfolding parse_advertise accept_advertise
  parse_advertise-IsAdvertise bytes xid msg h = ground arith

  parse_reply-IsReply :
      (bytes : List ℕ) (xid : ℕ) (msg : DhcpMessage D.Iapd D.Other)
      → parse_reply D bytes xid ≡ some msg
      → (D.decode bytes ≡ some msg) × IsReply xid msg
  unfolding parse_reply accept_reply
  parse_reply-IsReply bytes xid msg h = ground arith

  module _ (ask : N.World → N.World) (start : N.World) (xid : ℕ)
      (msg : DhcpMessage D.Iapd D.Other) where
    pub record IsAdvertised (after : N.World) : Type 0 where
      pub advertise : IsAdvertise xid msg
      pub heard : Heard ask start msg after

    pub record IsReplied (after : N.World) : Type 0 where
      pub reply : IsReply xid msg
      pub heard : Heard ask start msg after

    -- An action that gives the message only as it is heard.
    abbrev Advertises : Action N.World (Option (DhcpMessage D.Iapd D.Other)) → Type 0
    Advertises again =
        (w : N.World) → Rounds ask start w → (again w).0 ≡ ok (some msg) → IsAdvertised (again w).1

    abbrev Replies : Action N.World (Option (DhcpMessage D.Iapd D.Other)) → Type 0
    Replies again =
        (w : N.World) → Rounds ask start w → (again w).0 ≡ ok (some msg) → IsReplied (again w).1

    module _ (before : N.World) (rounds : Rounds ask start before) (timeout : ℕ) where
      abbrev waited : N.World
      waited = (N.select timeout (ask before)).1

      now-Heard :
          (bytes : List ℕ)
          → (N.select timeout (ask before)).0 ≡ received bytes
          → D.decode bytes ≡ some msg
          → Heard ask start msg waited
      now-Heard bytes answered decoded = record {
        before = before;
        rounds = rounds;
        timeout = timeout;
        bytes = bytes;
        received_then = answered;
        decoded = decoded;
        ended = refl;
      }

      solicit_selected_heard :
          (rt : ℕ) (again : ℕ → Action N.World (Option (DhcpMessage D.Iapd D.Other)))
          → ((rt' : ℕ) → Advertises (again rt'))
          → (selected : Selected) → (N.select timeout (ask before)).0 ≡ selected
          → (solicit_selected I D N xid rt again selected waited).0 ≡ ok (some msg)
          → IsAdvertised (solicit_selected I D N xid rt again selected waited).1
      unfolding solicit_selected
      solicit_selected_heard rt again later (received bytes) answered h =
          elim (Option-cases (parse_advertise D bytes xid)) [
            | inl missing ↦
                let again_now = later rt waited (next timeout before rounds) in ground arith
            | inr (found, e) ↦
                let accepted : parse_advertise D bytes xid ≡ some msg = ground arith in
                let (decoded, advertise) = parse_advertise-IsAdvertise bytes xid msg accepted in
                let done : IsAdvertised waited = record {
                  advertise = advertise;
                  heard = now-Heard bytes answered decoded;
                } in
                ground (arith, done)
          ]
      solicit_selected_heard rt again later timed_out answered h =
          later (next_rt rt) waited (next timeout before rounds) h
      solicit_selected_heard rt again later recv_failed answered h = absurd cc
      solicit_selected_heard rt again later cancelled answered h = absurd (ground arith)

      request_selected_heard :
          (again : Action N.World (Option (DhcpMessage D.Iapd D.Other)))
          → Replies again
          → (selected : Selected) → (N.select timeout (ask before)).0 ≡ selected
          → (request_selected I D N xid again selected waited).0 ≡ ok (some msg)
          → IsReplied (request_selected I D N xid again selected waited).1
      unfolding request_selected
      request_selected_heard again later (received bytes) answered h =
          elim (Option-cases (parse_reply D bytes xid)) [
            | inl missing ↦
                let again_now = later waited (next timeout before rounds) in ground arith
            | inr (found, e) ↦
                let accepted : parse_reply D bytes xid ≡ some msg = ground arith in
                let (decoded, reply) = parse_reply-IsReply bytes xid msg accepted in
                let done : IsReplied waited = record {
                  reply = reply;
                  heard = now-Heard bytes answered decoded;
                } in
                ground (arith, done)
          ]
      request_selected_heard again later timed_out answered h =
          later waited (next timeout before rounds) h
      request_selected_heard again later recv_failed answered h = absurd cc
      request_selected_heard again later cancelled answered h = absurd (ground arith)

  pub solicit_loop_heard :
      (rounds : ℕ) (bytes : List ℕ) (xid : ℕ) (msg : DhcpMessage D.Iapd D.Other) (rt : ℕ)
      (start w : N.World)
      → Rounds (ask_solicit bytes) start w
      → (solicit_loop I D N rounds bytes xid rt w).0 ≡ ok (some msg)
      → IsAdvertised (ask_solicit bytes) start xid msg (solicit_loop I D N rounds bytes xid rt w).1
  unfolding solicit_loop
  solicit_loop_heard zero bytes xid msg rt start w reached h = absurd cc
  solicit_loop_heard (suc rounds) bytes xid msg rt start w reached h =
      let random = (N.random_f64 (N.send_to bytes all_dhcp_relay_agents w).1).0 in
      let timeout = jitter_rt rt random in
      let round =
        solicit_selected_heard (ask_solicit bytes) start xid msg w reached timeout rt
          (solicit_loop I D N rounds bytes xid)
          (λ rt' w' reached'. solicit_loop_heard rounds bytes xid msg rt' start w' reached')
          (N.select timeout (ask_solicit bytes w)).0 refl in
      ground arith

  pub request_loop_heard :
      (rounds : ℕ) (bytes : List ℕ) (xid : ℕ) (msg : DhcpMessage D.Iapd D.Other) (start w : N.World)
      → Rounds (ask_request bytes) start w
      → (request_loop I D N rounds bytes xid w).0 ≡ ok (some msg)
      → IsReplied (ask_request bytes) start xid msg (request_loop I D N rounds bytes xid w).1
  unfolding request_loop
  request_loop_heard zero bytes xid msg start w reached h = absurd cc
  request_loop_heard (suc rounds) bytes xid msg start w reached h =
      let round =
        request_selected_heard (ask_request bytes) start xid msg w reached (from_secs 10)
          (request_loop I D N rounds bytes xid)
          (λ w' reached'. request_loop_heard rounds bytes xid msg start w' reached')
          (N.select (from_secs 10) (ask_request bytes w)).0 refl in
      ground arith
