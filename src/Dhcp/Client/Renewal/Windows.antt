-- ===== src/Dhcp/Client/Renewal/Windows.antt =====
-- When src/dhcpv6/client.rs sends while it renews a lease, as what its calls keep of the world.
use mapecd.Common.{
  ℕ, zero, suc, ◌+◌, ◌*◌, ◌^◌, ◌<◌, ◌≡◌, inl, inr, arith, List, Option, none, some, Option-cases,
}
use mapecd.Map.Net.{Ipnet}
use mapecd.Daemon.Runner.{Event}
use mapecd.Dhcp.Client.Message.{Dhcproto}
use mapecd.Dhcp.Client.Build.{build_oro, build_renew, build_rebind}
use mapecd.Dhcp.Client.Lease.{LeaseInfo}
use mapecd.Dhcp.Client.Network.{
  Selected, received, timed_out, recv_failed, cancelled, Network, Action, all_dhcp_relay_agents,
  destination, from_secs, add_secs,
}
use mapecd.Dhcp.Client.Renewal.{
  LoopEnd, Deadlines, lifetime_secs, deadlines_of, ren_retrans, reb_retrans_init, next_rebind_rt,
  take_encoded, take_reply, renew_taken, renew_selected, renew_round, renew_loop, rebind_taken,
  rebind_selected, rebind_round, rebind_loop, rebind_phase, renewal_phases,
}

-- What every call but the sending of a datagram keeps.
pub record IsInvariant {I : Ipnet} (N : Network I) (Good : N.World → Type 0) : Type 0 where
  pub now_good : (w : N.World) → Good w → Good (N.instant_now w).1
  pub xid_good : (w : N.World) → Good w → Good (N.random_xid w).1
  pub event_good : (e : Event I) (w : N.World) → Good w → Good (N.send_event e w).1
  pub sleep_good : (until : ℕ) (w : N.World) → Good w → Good (N.sleep_until until w).1
  pub wait_good :
      (timeout until : ℕ) (w : N.World) → Good w → Good (N.select_until timeout until w).1

module _ (I : Ipnet) (D : Dhcproto) (N : Network I) (Good : N.World → Type 0)
    (inv : IsInvariant N Good) (duid server_duid : List ℕ) (unicast : Option ℕ) (iaid : ℕ) where
  abbrev Keeps : {A : Type 0} → Action N.World A → Type 0
  Keeps m = (w : N.World) → Good w → Good (m w).1

  take_reply_good : (xid : ℕ) (raw : List ℕ) → Keeps (take_reply I D N iaid server_duid xid raw)
  unfolding take_reply take_encoded
  take_reply_good xid raw w good = grind (arith, inv.event_good)

  renew_selected_good :
      (xid : ℕ) (again : Action N.World (LoopEnd I D N))
      → Keeps again
      → (selected : Option Selected)
      → Keeps (renew_selected I D N duid server_duid unicast iaid xid again selected)
  unfolding renew_selected renew_taken
  renew_selected_good xid again keeps none w good = good
  renew_selected_good xid again keeps (some (received raw)) w good =
      ground
        (arith, keeps (take_reply I D N iaid server_duid xid raw w).1, take_reply_good xid raw w)
  renew_selected_good xid again keeps (some timed_out) w good = keeps w good
  renew_selected_good xid again keeps (some recv_failed) w good = keeps w good
  renew_selected_good xid again keeps (some cancelled) w good = good

  rebind_selected_good :
      (xid rt : ℕ) (again : ℕ → Action N.World (LoopEnd I D N))
      → ((rt' : ℕ) → Keeps (again rt'))
      → (selected : Option Selected)
      → Keeps (rebind_selected I D N duid server_duid unicast iaid xid rt again selected)
  unfolding rebind_selected rebind_taken
  rebind_selected_good xid rt again keeps none w good = good
  rebind_selected_good xid rt again keeps (some (received raw)) w good =
      ground
        (arith, keeps rt (take_reply I D N iaid server_duid xid raw w).1, take_reply_good xid raw w)
  rebind_selected_good xid rt again keeps (some timed_out) w good = keeps (next_rebind_rt rt) w good
  rebind_selected_good xid rt again keeps (some recv_failed) w good = keeps rt w good
  rebind_selected_good xid rt again keeps (some cancelled) w good = good

  module _ (ia_pd : D.Iapd) where
    -- A Renew may be sent directly after a look at the clock that shows an instant before T2, and a
    -- Rebind after one that shows an instant before the end of the lease.
    abbrev pub RenewIsGood : ℕ → Type 0
    RenewIsGood t2_at =
        (xid : ℕ) (w : N.World) (bytes : List ℕ)
        → build_renew D duid server_duid xid ia_pd build_oro ≡ some bytes
        → (N.instant_now w).0 < t2_at
        → Good w
        → Good (N.send_to bytes (destination unicast) (N.instant_now w).1).1

    abbrev pub RebindIsGood : ℕ → Type 0
    RebindIsGood expire_at =
        (xid : ℕ) (w : N.World) (bytes : List ℕ)
        → build_rebind D duid xid ia_pd build_oro ≡ some bytes
        → (N.instant_now w).0 < expire_at
        → Good w
        → Good (N.send_to bytes all_dhcp_relay_agents (N.instant_now w).1).1

    renew_round_good :
        (deadlines : Deadlines) (xid : ℕ) (again : Action N.World (LoopEnd I D N))
        → RenewIsGood deadlines.t2_at
        → Keeps again
        → (w : N.World) → (N.instant_now w).0 < deadlines.t2_at
        → Good w
        → Good
            (renew_round I D N duid server_duid unicast iaid ia_pd deadlines xid again
              (N.instant_now w).1).1
    unfolding renew_round
    renew_round_good deadlines xid again may_send keeps w early good =
        let w1 = (N.instant_now w).1 in
        elim (Option-cases (build_renew D duid server_duid xid ia_pd build_oro)) [
          | inl refused ↦ ground (arith, inv.now_good w)
          | inr (bytes, built) ↦
              let w2 = (N.send_to bytes (destination unicast) w1).1 in
              let waited = N.select_until (from_secs ren_retrans) deadlines.t2_at w2 in
              let sent = may_send xid w bytes built early good in
              let kept = inv.wait_good (from_secs ren_retrans) deadlines.t2_at w2 sent in
              ground (arith, renew_selected_good xid again keeps waited.0 waited.1 kept)
        ]

    rebind_round_good :
        (expire_at xid rt : ℕ) (again : ℕ → Action N.World (LoopEnd I D N))
        → RebindIsGood expire_at
        → ((rt' : ℕ) → Keeps (again rt'))
        → (w : N.World) → (N.instant_now w).0 < expire_at
        → Good w
        → Good
            (rebind_round I D N duid server_duid unicast iaid ia_pd expire_at xid rt again
              (N.instant_now w).1).1
    unfolding rebind_round
    rebind_round_good expire_at xid rt again may_send keeps w early good =
        let w1 = (N.instant_now w).1 in
        elim (Option-cases (build_rebind D duid xid ia_pd build_oro)) [
          | inl refused ↦ ground (arith, inv.now_good w)
          | inr (bytes, built) ↦
              let w2 = (N.send_to bytes all_dhcp_relay_agents w1).1 in
              let waited = N.select_until (from_secs rt) expire_at w2 in
              let sent = may_send xid w bytes built early good in
              let kept = inv.wait_good (from_secs rt) expire_at w2 sent in
              ground (arith, rebind_selected_good xid rt again keeps waited.0 waited.1 kept)
        ]

    pub renew_loop_good :
        (rounds : ℕ) (deadlines : Deadlines) (xid : ℕ)
        → RenewIsGood deadlines.t2_at
        → Keeps (renew_loop I D N duid server_duid unicast iaid rounds ia_pd deadlines xid)
    unfolding renew_loop
    renew_loop_good zero deadlines xid may_send w good = good
    renew_loop_good (suc rounds) deadlines xid may_send w good =
        let w1 = (N.instant_now w).1 in
        let again = renew_loop I D N duid server_duid unicast iaid rounds ia_pd deadlines xid in
        let keeps = renew_loop_good rounds deadlines xid may_send in
        let good' = inv.now_good w good in
        ground
          (arith, inv.now_good w1 good', renew_round_good deadlines xid again may_send keeps w1)

    rebind_loop_good :
        (rounds expire_at xid rt : ℕ)
        → RebindIsGood expire_at
        → Keeps (rebind_loop I D N duid server_duid unicast iaid rounds ia_pd expire_at xid rt)
    unfolding rebind_loop
    rebind_loop_good zero expire_at xid rt may_send w good = good
    rebind_loop_good (suc rounds) expire_at xid rt may_send w good =
        let again = rebind_loop I D N duid server_duid unicast iaid rounds ia_pd expire_at xid in
        let keeps = λ (rt' : ℕ). rebind_loop_good rounds expire_at xid rt' may_send in
        let good' = inv.now_good w good in
        ground (arith, rebind_round_good expire_at xid rt again may_send keeps w)

  -- While a lease is renewed, what is sent is sent in its time: whatever property of the world is
  -- kept by all other calls, by the sending of a Renew to the server's address right after a look at
  -- the clock before T2, and by the sending of a Rebind to the relay agents right after a look before
  -- the end of the lease, is kept by the renewal. T2 and the end count from the start.
  pub renewal_phases_in_time :
      (rounds : ℕ) (lease : LeaseInfo I D) (w : N.World)
      → RenewIsGood lease.ia_pd_for_release ((N.instant_now w).0 + lease.t2 * 10 ^ 9)
      → RebindIsGood lease.ia_pd_for_release
          ((N.instant_now w).0 + lifetime_secs lease.valid_lifetime * 10 ^ 9)
      → Good w
      → Good (renewal_phases I D N duid server_duid unicast iaid rounds lease w).1
  unfolding renewal_phases deadlines_of add_secs rebind_phase
  renewal_phases_in_time rounds lease w renews rebinds good =
      let now = (N.instant_now w).0 in
      let t1_at = now + lease.t1 * 10 ^ 9 in
      let deadlines : Deadlines = record {
        t1_at = t1_at;
        t2_at = now + lease.t2 * 10 ^ 9;
        expire_at = now + lifetime_secs lease.valid_lifetime * 10 ^ 9;
      } in
      let w1 = (N.instant_now w).1 in
      let w2 = (N.sleep_until t1_at w1).1 in
      let xid = (N.random_xid w2).0 in
      let w3 = (N.random_xid w2).1 in
      let ia_pd = lease.ia_pd_for_release in
      let w4 = (renew_loop I D N duid server_duid unicast iaid rounds ia_pd deadlines xid w3).1 in
      let xid' = (N.random_xid w4).0 in
      let good1 = inv.now_good w good in
      let good2 = inv.sleep_good t1_at w1 good1 in
      let good3 = inv.xid_good w2 good2 in
      let good4 = renew_loop_good ia_pd rounds deadlines xid renews w3 good3 in
      let good5 = inv.xid_good w4 good4 in
      let good6 =
        rebind_loop_good ia_pd rounds deadlines.expire_at xid' reb_retrans_init rebinds
          (N.random_xid w4).1 good5 in
      ground arith
