-- ===== src/Dhcp/Client/Renewal/Ends.antt =====
-- The renewal of src/dhcpv6/client.rs ends.
use mapecd.Common.{
  ℕ, zero, suc, ◌+◌, ◌≤◌, ◌<◌, inl, inr, arith, List, Option, none, some, Option-cases, Bool-cases,
  leb, Res, refl, ◌≡◌, true,
}
use mapecd.Map.Net.{Ipnet}
use mapecd.Dhcp.Client.Message.{Dhcproto}
use mapecd.Dhcp.Client.Build.{build_oro, build_renew, build_rebind}
use mapecd.Dhcp.Client.Lease.{Stop}
use mapecd.Dhcp.Client.Network.{
  Selected, received, timed_out, recv_failed, cancelled, Network, all_dhcp_relay_agents,
  destination, from_secs,
}
use mapecd.Dhcp.Client.Renewal.{
  LoopEnd, Deadlines, ren_retrans, next_rebind_rt, renew_loop, renew_taken, renew_selected,
  renew_round, rebind_loop, rebind_taken, rebind_selected, rebind_round, take_reply,
}
use mapecd.Dhcp.Client.Renewal.Clock.{
  IsClock, is_ok, goes_on, IsNearer, select_until-IsNearer, take_reply_keeps, take_reply_brings,
  take_reply_ends,
}

next_rebind_rt_positive : (rt : ℕ) → 0 < next_rebind_rt rt
unfolding next_rebind_rt
next_rebind_rt_positive rt = omega arith

module _ (I : Ipnet) (D : Dhcproto) (N : Network I) (law : IsClock N) (duid server_duid : List ℕ)
    (unicast : Option ℕ) (iaid : ℕ) where
  module _ (c a : ℕ) (xid : ℕ) where
    -- A rest that ends wherever the clock, or the end of the arrivals, is nearer.
    abbrev EndsFrom : (N.World → Res Stop (LoopEnd I D N) × N.World) → Type 0
    EndsFrom again = (w : N.World) → IsNearer I D N law c a w → is_ok (again w).0 ≡ true

    rebind_selected_ends :
        (rt : ℕ) (again : ℕ → N.World → Res Stop (LoopEnd I D N) × N.World)
        → 0 < rt
        → ((rt' : ℕ) → 0 < rt' → EndsFrom (again rt'))
        → (selected : Option Selected) (w : N.World)
        → (goes_on I D N law selected ≡ true → IsNearer I D N law c a w)
        → is_ok (rebind_selected I D N duid server_duid unicast iaid xid rt again selected w).0
          ≡ true
    unfolding rebind_selected rebind_taken
    rebind_selected_ends rt again some_time ends none w h = ground arith
    rebind_selected_ends rt again some_time ends (some (received raw)) w h =
        let w' = (take_reply I D N iaid server_duid xid raw w).1 in
        ground (
          arith,
          ends rt some_time w',
          take_reply_keeps I D N law iaid server_duid xid raw w,
          take_reply_brings I D N law iaid server_duid xid raw w,
          take_reply_ends I D N law iaid server_duid xid raw w,
          h refl,
        )
    rebind_selected_ends rt again some_time ends (some timed_out) w h =
        ends (next_rebind_rt rt) (next_rebind_rt_positive rt) w (h refl)
    rebind_selected_ends rt again some_time ends (some recv_failed) w h =
        ends rt some_time w (h refl)
    rebind_selected_ends rt again some_time ends (some cancelled) w h = ground arith

    renew_selected_ends :
        (again : N.World → Res Stop (LoopEnd I D N) × N.World)
        → EndsFrom again
        → (selected : Option Selected) (w : N.World)
        → (goes_on I D N law selected ≡ true → IsNearer I D N law c a w)
        → is_ok (renew_selected I D N duid server_duid unicast iaid xid again selected w).0 ≡ true
    unfolding renew_selected renew_taken
    renew_selected_ends again ends none w h = ground arith
    renew_selected_ends again ends (some (received raw)) w h =
        let w' = (take_reply I D N iaid server_duid xid raw w).1 in
        ground (
          arith,
          ends w',
          take_reply_keeps I D N law iaid server_duid xid raw w,
          take_reply_brings I D N law iaid server_duid xid raw w,
          take_reply_ends I D N law iaid server_duid xid raw w,
          h refl,
        )
    renew_selected_ends again ends (some timed_out) w h = ends w (h refl)
    renew_selected_ends again ends (some recv_failed) w h = ends w (h refl)
    renew_selected_ends again ends (some cancelled) w h = ground arith

    rebind_round_ends :
        (ia_pd : D.Iapd) (expire_at rt : ℕ)
        (again : ℕ → N.World → Res Stop (LoopEnd I D N) × N.World)
        → 0 < rt
        → ((rt' : ℕ) → 0 < rt' → EndsFrom (again rt'))
        → (w : N.World) → c ≤ law.clock w
        → law.arrivals w ≤ a
        → is_ok (rebind_round I D N duid server_duid unicast iaid ia_pd expire_at xid rt again w).0
          ≡ true
    unfolding rebind_round from_secs
    rebind_round_ends ia_pd expire_at rt again some_time ends w late few =
        elim (Option-cases (build_rebind D duid xid ia_pd build_oro)) [
          | inl refused ↦ ground arith
          | inr (bytes, built) ↦
              let w2 = (N.send_to bytes all_dhcp_relay_agents w).1 in
              let waited = N.select_until (from_secs rt) expire_at w2 in
              let nearer =
                select_until-IsNearer I D N law (from_secs rt) expire_at c a w2
                  (omega (arith, some_time))
                  (omega (arith, late, law.send_keeps bytes all_dhcp_relay_agents w))
                  (omega (arith, few, law.send_brings bytes all_dhcp_relay_agents w)) in
              ground (arith, rebind_selected_ends rt again some_time ends waited.0 waited.1 nearer)
        ]

    renew_round_ends :
        (ia_pd : D.Iapd) (deadlines : Deadlines)
        (again : N.World → Res Stop (LoopEnd I D N) × N.World)
        → EndsFrom again
        → (w : N.World) → c ≤ law.clock w
        → law.arrivals w ≤ a
        → is_ok (renew_round I D N duid server_duid unicast iaid ia_pd deadlines xid again w).0
          ≡ true
    unfolding renew_round from_secs
    renew_round_ends ia_pd deadlines again ends w late few =
        elim (Option-cases (build_renew D duid server_duid xid ia_pd build_oro)) [
          | inl refused ↦ ground arith
          | inr (bytes, built) ↦
              let w2 = (N.send_to bytes (destination unicast) w).1 in
              let waited = N.select_until (from_secs ren_retrans) deadlines.t2_at w2 in
              let nearer =
                select_until-IsNearer I D N law (from_secs ren_retrans) deadlines.t2_at c a w2
                  (omega arith) (omega (arith, late, law.send_keeps bytes (destination unicast) w))
                  (omega (arith, few, law.send_brings bytes (destination unicast) w)) in
              ground (arith, renew_selected_ends again ends waited.0 waited.1 nearer)
        ]

  -- With more rounds than the clock has ticks left and arrivals are to come, a loop ends.
  pub rebind_loop_ends :
      (rounds : ℕ) (ia_pd : D.Iapd) (expire_at xid rt : ℕ) (w : N.World)
      → 0 < rt
      → expire_at + law.arrivals w < law.clock w + rounds
      → 0 < rounds
      → is_ok (rebind_loop I D N duid server_duid unicast iaid rounds ia_pd expire_at xid rt w).0
        ≡ true
  unfolding rebind_loop
  rebind_loop_ends zero ia_pd expire_at xid rt w some_time h some_rounds = absurd (omega arith)
  rebind_loop_ends (suc rounds) ia_pd expire_at xid rt w some_time h some_rounds =
      elim (Bool-cases (leb expire_at (N.instant_now w).0)) [
        | inl over ↦ ground arith
        | inr valid ↦
            let w1 = (N.instant_now w).1 in
            let early : law.clock w < expire_at = ground (arith, law.now_reads w) in
            let again =
              rebind_loop I D N duid server_duid unicast iaid rounds ia_pd expire_at xid in
            let ends =
              λ (rt' : ℕ) (some_time' : 0 < rt') (w' : N.World)
                  (nearer : IsNearer I D N law (law.clock w) (law.arrivals w) w').
                rebind_loop_ends rounds ia_pd expire_at xid rt' w' some_time'
                  (omega (arith, early, nearer, h)) (omega (arith, early, h)) in
            ground (
              arith,
              rebind_round_ends (law.clock w) (law.arrivals w) xid ia_pd expire_at rt again
                  some_time ends w1 (law.now_keeps w) (law.now_brings w),
            )
      ]

  pub renew_loop_ends :
      (rounds : ℕ) (ia_pd : D.Iapd) (deadlines : Deadlines) (xid : ℕ) (w : N.World)
      → deadlines.t2_at + law.arrivals w < law.clock w + rounds
      → 0 < rounds
      → is_ok (renew_loop I D N duid server_duid unicast iaid rounds ia_pd deadlines xid w).0 ≡ true
  unfolding renew_loop
  renew_loop_ends zero ia_pd deadlines xid w h some_rounds = absurd (omega arith)
  renew_loop_ends (suc rounds) ia_pd deadlines xid w h some_rounds =
      let w1 = (N.instant_now w).1 in
      let w2 = (N.instant_now w1).1 in
      elim (Bool-cases (leb deadlines.t2_at (N.instant_now w1).0)) [
        | inl over ↦ ground arith
        | inr valid ↦
            let early : law.clock w1 < deadlines.t2_at = ground (arith, law.now_reads w1) in
            let again = renew_loop I D N duid server_duid unicast iaid rounds ia_pd deadlines xid in
            let c = law.clock w1 in
            let a = law.arrivals w1 in
            let kept = law.now_keeps w in
            let brought = law.now_brings w in
            let ends = λ (w' : N.World) (nearer : IsNearer I D N law c a w').
              renew_loop_ends rounds ia_pd deadlines xid w'
                (omega (arith, early, nearer, h, kept, brought))
                (omega (arith, early, h, kept, brought)) in
            ground (
              arith,
              renew_round_ends c a xid ia_pd deadlines again ends w2 (law.now_keeps w1)
                  (law.now_brings w1),
            )
      ]
