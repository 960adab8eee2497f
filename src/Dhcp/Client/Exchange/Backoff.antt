-- ===== src/Dhcp/Client/Exchange/Backoff.antt =====
-- The retransmission of the Solicit in src/dhcpv6/client.rs.
use mapecd.Common.{
  ℕ, zero, suc, ◌+◌, ◌*◌, ◌^◌, ◌≤◌, ◌<◌, ◌≡◌, min, arith, pow-suc, one-le-pow, List, Option,
  Option-cases, Bool-cases, inl, inr, ◌⊎◌,
}
use mapecd.Map.Net.{Ipnet}
use mapecd.Dhcp.Client.Message.{DhcpMessage, Dhcproto, parse_advertise}
use mapecd.Dhcp.Client.Network.{
  Selected, received, timed_out, recv_failed, cancelled, Network, Action, all_dhcp_relay_agents,
}
use mapecd.Dhcp.Client.Exchange.{
  sol_timeout, sol_max_rt, next_rt, jitter_rt, solicit_selected, solicit_loop,
}

-- `rt` after a number of timeouts.
abbrev pub rt_after : ℕ → ℕ
rt_after zero = sol_timeout
rt_after (suc n) = next_rt (rt_after n)

rt_after_value : (n : ℕ) → rt_after n ≡ min (2 ^ n) sol_max_rt
unfolding next_rt
rt_after_value zero = omega arith
rt_after_value (suc n) = omega (arith, rt_after_value n, pow-suc 2 n, one-le-pow 2 n)

jitter_rt_bounds :
    (rt random : ℕ)
    → random < 2 ^ 53
    → (9 * 10 ^ 8 * rt ≤ jitter_rt rt random) × (jitter_rt rt random ≤ 11 * 10 ^ 8 * rt)
unfolding jitter_rt
jitter_rt_bounds rt random h =
    let spread : rt * (9 * 2 ^ 53 + 2 * random) ≡ 9 * 2 ^ 53 * rt + 2 * (rt * random) =
      grind arith in
    let most : rt * random ≤ rt * 2 ^ 53 = grind arith in
    rw spread (omega (arith, most), omega (arith, most))

-- After n timeouts, a wait is of min(2^n, 120) seconds, give or take a tenth.
pub record IsWait (n timeout : ℕ) : Type 0 where
  pub least : 9 * 10 ^ 8 * min (2 ^ n) 120 ≤ timeout
  pub most : timeout ≤ 11 * 10 ^ 8 * min (2 ^ n) 120

jitter_rt-IsWait : (n random : ℕ) → random < 2 ^ 53 → IsWait n (jitter_rt (rt_after n) random)
jitter_rt-IsWait n random h =
    let value = rt_after_value n in
    let (least, most) = jitter_rt_bounds (rt_after n) random h in
    record { least = omega (arith, value, least); most = omega (arith, value, most) }

-- How many timeouts there were, with the answer to a wait.
abbrev pub timeouts : ℕ → Selected → ℕ
timeouts n timed_out = suc n
timeouts n (received _) = n
timeouts n recv_failed = n
timeouts n cancelled = n

-- An observer of the Solicits: what it knows of the world between two rounds, and what it knows from
-- a sending on, after n timeouts. It follows the calls as long as a wait comes after a sending and has
-- the length that belongs to n.
pub record IsObserver {I : Ipnet} (N : Network I) (solicit_data : List ℕ)
    (Idle Sent : ℕ → N.World → Type 0) : Type 0 where
  pub random_fits : (w : N.World) → (N.random_f64 w).0 < 2 ^ 53
  pub sends :
      (n : ℕ) (w : N.World) → Idle n w → Sent n (N.send_to solicit_data all_dhcp_relay_agents w).1
  pub draws : (n : ℕ) (w : N.World) → Sent n w → Sent n (N.random_f64 w).1
  pub waits :
      (n timeout : ℕ) (w : N.World)
      → IsWait n timeout
      → Sent n w
      → Idle (timeouts n (N.select timeout w).0) (N.select timeout w).1

module _ (I : Ipnet) (D : Dhcproto) (N : Network I) (solicit_data : List ℕ)
    (Idle Sent : ℕ → N.World → Type 0) (observer : IsObserver N solicit_data Idle Sent) where
  pub record IsFollowed (w : N.World) : Type 0 where
    pub count : ℕ
    pub known : Idle count w ⊎ Sent count w

  Idle-IsFollowed : (n : ℕ) (w : N.World) → Idle n w → IsFollowed w
  Idle-IsFollowed n w idle = record { count = n; known = inl idle }

  solicit_selected-IsFollowed :
      (xid n : ℕ) (again : ℕ → Action N.World (Option (DhcpMessage D.Iapd D.Other)))
      → ((m : ℕ) (w : N.World) → Idle m w → IsFollowed (again (rt_after m) w).1)
      → (selected : Selected) (w : N.World) → Idle (timeouts n selected) w
      → IsFollowed (solicit_selected I D N xid (rt_after n) again selected w).1
  unfolding solicit_selected
  solicit_selected-IsFollowed xid n again later (received bytes) w idle =
      elim (Option-cases (parse_advertise D bytes xid)) [
        | inl missing ↦ ground (arith, later n w idle)
        | inr (msg, found) ↦ ground (arith, Idle-IsFollowed n w idle)
      ]
  solicit_selected-IsFollowed xid n again later timed_out w idle = later (suc n) w idle
  solicit_selected-IsFollowed xid n again later recv_failed w idle = Idle-IsFollowed n w idle
  solicit_selected-IsFollowed xid n again later cancelled w idle = Idle-IsFollowed n w idle

  solicit_loop-IsFollowed :
      (rounds xid n : ℕ) (w : N.World)
      → Idle n w
      → IsFollowed (solicit_loop I D N rounds solicit_data xid (rt_after n) w).1
  unfolding solicit_loop
  solicit_loop-IsFollowed zero xid n w idle = Idle-IsFollowed n w idle
  solicit_loop-IsFollowed (suc rounds) xid n w idle =
      let w1 = (N.send_to solicit_data all_dhcp_relay_agents w).1 in
      let random = (N.random_f64 w1).0 in
      let w2 = (N.random_f64 w1).1 in
      let timeout = jitter_rt (rt_after n) random in
      let sent = observer.sends n w idle in
      let waited =
        observer.waits n timeout w2 (jitter_rt-IsWait n random (observer.random_fits w1))
          (observer.draws n w1 sent) in
      let next =
        solicit_selected-IsFollowed xid n (solicit_loop I D N rounds solicit_data xid)
          (λ m w' idle'. solicit_loop-IsFollowed rounds xid m w' idle') (N.select timeout w2).0
          (N.select timeout w2).1 waited in
      elim (Bool-cases (N.send_to solicit_data all_dhcp_relay_agents w).0) [
        | inl done ↦ ground (arith, next)
        | inr broken ↦
            let followed : IsFollowed w1 = record { count = n; known = inr sent } in
            ground (arith, followed)
      ]

  -- The waits double: `solicit_loop`, however many rounds it has, waits only after a sending of the
  -- Solicit to the relay agents, and after n timeouts for min(2^n, 120) seconds, give or take a tenth;
  -- an observer that follows such sendings and waits follows the loop to its end.
  pub solicit_loop_backs_off :
      (rounds xid : ℕ) (w : N.World)
      → Idle 0 w
      → IsFollowed (solicit_loop I D N rounds solicit_data xid sol_timeout w).1
  solicit_loop_backs_off rounds xid w idle = solicit_loop-IsFollowed rounds xid 0 w idle
