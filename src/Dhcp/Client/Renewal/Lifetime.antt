-- ===== src/Dhcp/Client/Renewal/Lifetime.antt =====
-- A lease of src/dhcpv6/client.rs comes to an end: its renewal ends with its lifetime, unless that is
-- infinite.
use mapecd.Common.{
  ℕ, suc, ◌+◌, ◌-◌, ◌*◌, ◌^◌, ◌≤◌, ◌<◌, ◌≡◌, arith, List, Option, some, ok, true, panic,
}
use mapecd.Map.Net.{Ipnet}
use mapecd.Dhcp.Client.Message.{Dhcproto}
use mapecd.Dhcp.Client.Build.{build_oro, build_renew}
use mapecd.Dhcp.Client.Lease.{LeaseInfo}
use mapecd.Dhcp.Client.Network.{Network, destination, add_secs}
use mapecd.Dhcp.Client.Renewal.{
  LoopEnd, Deadlines, lifetime_secs, deadlines_of, reb_retrans_init, renew_loop, rebind_phase,
  renewal_phases, do_renewal_loop,
}
use mapecd.Dhcp.Client.Renewal.Clock.{IsClock, is_ok, ok_value}
use mapecd.Dhcp.Client.Renewal.Windows.{IsInvariant, renew_loop_good}
use mapecd.Dhcp.Client.Renewal.Ends.{renew_loop_ends, rebind_loop_ends}

module _ (I : Ipnet) (D : Dhcproto) (N : Network I) (law : IsClock N) (duid server_duid : List ℕ)
    (unicast : Option ℕ) (iaid : ℕ) where
  -- The clock is not turned back, and no more is to arrive.
  abbrev Keeps : ℕ → ℕ → N.World → Type 0
  Keeps c a w = (c ≤ law.clock w) × (law.arrivals w ≤ a)

  Keeps-IsInvariant : (c a : ℕ) → IsInvariant N (Keeps c a)
  Keeps-IsInvariant c a = record {
    now_good = λ w h. omega (arith, h, law.now_keeps w, law.now_brings w);
    xid_good = λ w h. omega (arith, h, law.xid_keeps w, law.xid_brings w);
    event_good = λ e w h. omega (arith, h, law.event_keeps e w, law.event_brings e w);
    sleep_good = λ until w h. omega (arith, h, law.sleep_keeps until w, law.sleep_brings until w);
    wait_good = λ timeout until w h.
        omega (arith, h, law.wait_keeps timeout until w, law.wait_brings timeout until w);
  }

  renew_loop-Keeps :
      (rounds : ℕ) (ia_pd : D.Iapd) (deadlines : Deadlines) (xid : ℕ) (w : N.World)
      → Keeps
          (law.clock w)
          (law.arrivals w)
          (renew_loop I D N duid server_duid unicast iaid rounds ia_pd deadlines xid w).1
  renew_loop-Keeps rounds ia_pd deadlines xid w =
      let c = law.clock w in
      let a = law.arrivals w in
      let send_good =
        λ (xid' : ℕ) (w' : N.World) (bytes : List ℕ)
            (built : build_renew D duid server_duid xid' ia_pd build_oro ≡ some bytes)
            (early : (N.instant_now w').0 < deadlines.t2_at) (h : Keeps c a w').
          let to = destination unicast in
          let w2 = (N.instant_now w').1 in
          let good : Keeps c a (N.send_to bytes to w2).1 = omega (
            arith,
            h,
            law.now_keeps w',
            law.now_brings w',
            law.send_keeps bytes to w2,
            law.send_brings bytes to w2,
          ) in
          good in
      renew_loop_good I D N (Keeps c a) (Keeps-IsInvariant c a) duid server_duid unicast iaid ia_pd
        rounds deadlines xid send_good w (omega arith)

  -- The lifetimes of a lease, in 32 bits, and none of them infinite.
  pub record IsFinite (lease : LeaseInfo I D) : Type 0 where
    pub t1_fits : lease.t1 < 2 ^ 32
    pub t2_fits : lease.t2 < 2 ^ 32
    pub lifetime_fits : lease.valid_lifetime < 2 ^ 32 - 1

  deadlines_value :
      (lease : LeaseInfo I D) (now : ℕ)
      → IsFinite lease
      → now < 2 ^ 62
      → deadlines_of now lease.t1 lease.t2 lease.valid_lifetime
        ≡ ok (record {
          t1_at = now + lease.t1 * 10 ^ 9;
          t2_at = now + lease.t2 * 10 ^ 9;
          expire_at = now + lease.valid_lifetime * 10 ^ 9;
        })
  unfolding deadlines_of add_secs lifetime_secs
  deadlines_value lease now finite in_range =
      ground (arith, finite.t1_fits, finite.t2_fits, finite.lifetime_fits)

  phases_ok :
      (rounds : ℕ) (lease : LeaseInfo I D) (w : N.World)
      → IsFinite lease
      → law.clock w < 2 ^ 62
      → law.arrivals w + lease.t2 * 10 ^ 9 < rounds
      → law.arrivals w + lease.valid_lifetime * 10 ^ 9 < rounds
      → is_ok (renewal_phases I D N duid server_duid unicast iaid rounds lease w).0 ≡ true
  unfolding renewal_phases rebind_phase
  phases_ok rounds lease w finite in_range t2_fits lifetime_fits =
      let now = (N.instant_now w).0 in
      let t1_at = now + lease.t1 * 10 ^ 9 in
      let deadlines : Deadlines = record {
        t1_at = t1_at;
        t2_at = now + lease.t2 * 10 ^ 9;
        expire_at = now + lease.valid_lifetime * 10 ^ 9;
      } in
      let read = law.now_reads w in
      let planned : deadlines_of now lease.t1 lease.t2 lease.valid_lifetime ≡ ok deadlines =
        deadlines_value lease now finite (omega (arith, read, in_range)) in
      let w1 = (N.instant_now w).1 in
      let w2 = (N.sleep_until t1_at w1).1 in
      let xid = (N.random_xid w2).0 in
      let w3 = (N.random_xid w2).1 in
      let ia_pd = lease.ia_pd_for_release in
      let w4 = (renew_loop I D N duid server_duid unicast iaid rounds ia_pd deadlines xid w3).1 in
      let w5 = (N.random_xid w4).1 in
      let kept : Keeps (law.clock w) (law.arrivals w) w3 = omega (
        arith,
        law.now_keeps w,
        law.now_brings w,
        law.sleep_keeps t1_at w1,
        law.sleep_brings t1_at w1,
        law.xid_keeps w2,
        law.xid_brings w2,
      ) in
      let looped = renew_loop-Keeps rounds ia_pd deadlines xid w3 in
      let kept' : Keeps (law.clock w) (law.arrivals w) w5 =
        omega (arith, kept, looped, law.xid_keeps w4, law.xid_brings w4) in
      let renewing =
        renew_loop_ends I D N law duid server_duid unicast iaid rounds ia_pd deadlines xid w3
          (omega (arith, t2_fits, read, kept)) (omega (arith, t2_fits)) in
      let rebinding =
        rebind_loop_ends I D N law duid server_duid unicast iaid rounds ia_pd deadlines.expire_at
          (N.random_xid w4).0 reb_retrans_init w5 (omega arith)
          (omega (arith, lifetime_fits, read, kept')) (omega (arith, t2_fits)) in
      ground arith

  -- A lease does not last: with a lifetime that is not infinite, a clock that does not go back and is
  -- not at the end of its range, and only so many arrivals from the socket, the renewal of a lease
  -- ends with a result, whatever arrives, without an error or a panic. It ends within as many rounds
  -- as there are arrivals and nanoseconds in its lifetime, or in its T2, and one more.
  pub renewal_phases_end :
      (rounds : ℕ) (lease : LeaseInfo I D) (w : N.World)
      → IsFinite lease
      → law.clock w < 2 ^ 62
      → law.arrivals w + lease.t2 * 10 ^ 9 < rounds
      → law.arrivals w + lease.valid_lifetime * 10 ^ 9 < rounds
      → (end : LoopEnd I D N) × ((renewal_phases I D N duid server_duid unicast iaid rounds lease
            w).0
          ≡ ok end)
  renewal_phases_end rounds lease w finite in_range t2_fits lifetime_fits =
      ok_value (renewal_phases I D N duid server_duid unicast iaid rounds lease w).0
        (phases_ok rounds lease w finite in_range t2_fits lifetime_fits)

module _ (I : Ipnet) (D : Dhcproto) (N : Network I) (duid server_duid : List ℕ) (unicast : Option ℕ)
    (iaid : ℕ) where
  -- An infinite lifetime, 2 ^ 32 - 1, ends the client: from the second second of the clock on, the
  -- renewal panics at its start, since 2 ^ 63 - 1 seconds are added to an instant.
  pub infinite_lifetime_panics :
      (rounds : ℕ) (lease : LeaseInfo I D) (w : N.World)
      → lease.valid_lifetime ≡ 2 ^ 32 - 1
      → 10 ^ 9 ≤ (N.instant_now w).0
      → (do_renewal_loop I D N duid server_duid unicast iaid (suc rounds) lease w).0 ≡ panic
  unfolding do_renewal_loop renewal_phases deadlines_of add_secs lifetime_secs
  infinite_lifetime_panics rounds lease w infinite late = ground arith
