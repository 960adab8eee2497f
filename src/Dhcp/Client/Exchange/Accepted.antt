-- ===== src/Dhcp/Client/Exchange/Accepted.antt =====
-- The lease that the exchange of src/dhcpv6/client.rs gives.
use mapecd.Common.{ℕ, ◌≡◌, arith, List, some, ok, Option-cases, Res-cases, inl, inr}
use mapecd.Map.Net.{Ipnet}
use mapecd.Dhcp.Client.Message.{
  DhcpMessage, Dhcproto, get_server_id, get_iapd, extract_server_duid, extract_ia_pd,
}
use mapecd.Dhcp.Client.Build.{build_oro, build_request, build_solicit, encode_msg}
use mapecd.Dhcp.Client.Lease.{LeaseInfo, rules_of, lease_of, process_reply_message, process_reply}
use mapecd.Dhcp.Client.Network.{Network}
use mapecd.Dhcp.Client.Exchange.Heard.{
  first, IsAdvertised, IsReplied, ask_solicit, ask_request, solicit_loop_heard, request_loop_heard,
}
use mapecd.Dhcp.Client.Exchange.{
  sol_timeout, solicit_loop, request_loop, lease_of_reply, request_lease, do_initial_exchange,
}

module _ (I : Ipnet) (D : Dhcproto) (N : Network I) where
  process_reply_server :
      (raw : List ℕ) (iaid : ℕ) (duid : List ℕ) (lease : LeaseInfo I D)
      → process_reply I D raw iaid duid ≡ ok lease
      → lease.server_duid ≡ duid
  unfolding process_reply process_reply_message lease_of rules_of
  process_reply_server raw iaid duid lease h = ground arith

  -- Where a lease comes from: the datagrams that are received after `start`, where the id `xid` was
  -- drawn.
  pub record IsLeased (duid : List ℕ) (iaid xid : ℕ) (start : N.World) (lease : LeaseInfo I D)
      : Type 0 where
    pub solicit : List ℕ
    pub solicited : build_solicit D duid iaid xid build_oro ≡ some solicit
    pub adv_msg : DhcpMessage D.Iapd D.Other
    pub chosen : N.World
    pub advertised : IsAdvertised I D N (ask_solicit I D N solicit) start xid adv_msg chosen
    pub server : get_server_id D adv_msg.opts ≡ some lease.server_duid
    pub ia_pd : D.Iapd
    pub offered : get_iapd D adv_msg.opts ≡ some ia_pd
    pub request : List ℕ
    pub requested :
        build_request D duid lease.server_duid (N.random_xid chosen).0 ia_pd build_oro
        ≡ some request
    pub reply_msg : DhcpMessage D.Iapd D.Other
    pub answered : N.World
    pub replied :
        IsReplied I D N
          (ask_request I D N request)
          (N.random_xid chosen).1
          (N.random_xid chosen).0
          reply_msg
          answered
    pub raw : List ℕ
    pub encoded : encode_msg D reply_msg ≡ some raw
    pub processed : process_reply I D raw iaid lease.server_duid ≡ ok lease

  lease_of_reply_steps :
      (iaid : ℕ) (server : List ℕ) (msg : DhcpMessage D.Iapd D.Other) (lease : LeaseInfo I D)
      (w : N.World)
      → (lease_of_reply I D N iaid server msg w).0 ≡ ok (some lease)
      → (raw : List ℕ) × (encode_msg D msg ≡ some raw)
        × (process_reply I D raw iaid server ≡ ok lease)
  unfolding lease_of_reply
  lease_of_reply_steps iaid server msg lease w h = elim (Option-cases (encode_msg D msg)) [
    | inl missing ↦ absurd (ground arith)
    | inr (raw, encoded) ↦ (raw, encoded, ground arith)
  ]

  request_lease-IsLeased :
      (rounds : ℕ) (duid : List ℕ) (iaid xid : ℕ) (adv_msg : DhcpMessage D.Iapd D.Other)
      (lease : LeaseInfo I D) (start w : N.World) (solicit : List ℕ)
      → build_solicit D duid iaid xid build_oro ≡ some solicit
      → IsAdvertised I D N (ask_solicit I D N solicit) start xid adv_msg w
      → (request_lease I D N rounds duid iaid adv_msg w).0 ≡ ok (some lease)
      → IsLeased duid iaid xid start lease
  unfolding request_lease extract_server_duid extract_ia_pd
  request_lease-IsLeased rounds duid iaid xid adv_msg lease start w solicit solicited advertised h =
      elim (Option-cases (get_server_id D adv_msg.opts)) [
        | inl missing ↦ absurd (ground arith)
        | inr (server, named) ↦ elim (Option-cases (get_iapd D adv_msg.opts)) [
          | inl missing ↦ absurd (ground arith)
          | inr (pd, offered) ↦
              let w1 = (N.random_xid w).1 in
              let req_xid = (N.random_xid w).0 in
              elim (Option-cases (build_request D duid server req_xid pd build_oro)) [
                | inl missing ↦ absurd (ground arith)
                | inr (bytes, built) ↦
                    let looped = request_loop I D N rounds bytes req_xid w1 in
                    elim (Res-cases looped.0) [
                      | inr broken ↦ absurd (ground arith)
                      | inl (answer, e) ↦ elim (Option-cases answer) [
                        | inl stopped ↦ absurd (ground arith)
                        | inr (msg, replied) ↦
                            let found : looped.0 ≡ ok (some msg) = ground arith in
                            let reply =
                              request_loop_heard I D N rounds bytes req_xid msg w1 w1 first found in
                            let last : (lease_of_reply I D N iaid server msg looped.1).0
                                ≡ ok (some lease) =
                              ground arith in
                            let (raw, encoded, processed) =
                              lease_of_reply_steps iaid server msg lease looped.1 last in
                            let same = process_reply_server raw iaid server lease processed in
                            record {
                              solicit = solicit;
                              solicited = solicited;
                              adv_msg = adv_msg;
                              chosen = w;
                              advertised = advertised;
                              server = ground arith;
                              ia_pd = pd;
                              offered = offered;
                              request = bytes;
                              requested = simp (same) built;
                              reply_msg = msg;
                              answered = looped.1;
                              replied = reply;
                              raw = raw;
                              encoded = encoded;
                              processed = simp (same) processed;
                            }
                      ]
                    ]
              ]
        ]
      ]

  -- A lease is taken from the server that was chosen: where the exchange gives a lease, a datagram
  -- received in a round of the Solicit, right after it was sent, is an Advertise with the id of the
  -- Solicit and no failure status; it ended the rounds, named that server and offered an IA_PD. A
  -- Request to that server for this IA_PD was built with an id drawn then, and the lease is what
  -- `process_reply` reads of a Reply with that id, received in a later round, right after the Request
  -- was sent.
  pub do_initial_exchange-IsLeased :
      (rounds : ℕ) (duid : List ℕ) (iaid : ℕ) (lease : LeaseInfo I D) (w : N.World)
      → (do_initial_exchange I D N rounds duid iaid w).0 ≡ ok (some lease)
      → IsLeased duid iaid (N.random_xid w).0 (N.random_xid w).1 lease
  unfolding do_initial_exchange
  do_initial_exchange-IsLeased rounds duid iaid lease w h =
      let w1 = (N.random_xid w).1 in
      let xid = (N.random_xid w).0 in
      elim (Option-cases (build_solicit D duid iaid xid build_oro)) [
        | inl missing ↦ absurd (ground arith)
        | inr (bytes, built) ↦
            let looped = solicit_loop I D N rounds bytes xid sol_timeout w1 in
            elim (Res-cases looped.0) [
              | inr broken ↦ absurd (ground arith)
              | inl (answer, e) ↦ elim (Option-cases answer) [
                | inl stopped ↦ absurd (ground arith)
                | inr (msg, advertised) ↦
                    let found : looped.0 ≡ ok (some msg) = ground arith in
                    let advertised =
                      solicit_loop_heard I D N rounds bytes xid msg sol_timeout w1 w1 first found in
                    request_lease-IsLeased rounds duid iaid xid msg lease w1 looped.1 bytes built
                      advertised (ground arith)
              ]
            ]
      ]
