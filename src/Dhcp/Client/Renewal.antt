-- ===== src/Dhcp/Client/Renewal.antt =====
-- The renewal of a lease in src/dhcpv6/client.rs: `do_renewal_loop`, with its two inner loops.
pub mod Clock
pub mod Ends
pub mod Windows
pub mod Lifetime
use mapecd.Common.{
  ℕ, zero, suc, ◌+◌, ◌-◌, ◌/◌, ◌^◌, ◌==◌, min, leb, if◌then◌else◌, is_empty, List, Option, none,
  some, Res, ok, ◌>>=◌ as bind,
}
use mapecd.Map.Net.{Ipnet}
use mapecd.Dhcp.Client.Message.{Dhcproto, parse_reply}
use mapecd.Dhcp.Client.Build.{build_oro, encode_msg, build_renew, build_rebind}
use mapecd.Dhcp.Client.Lease.{Stop, unfinished, LeaseInfo, renewal_event, process_reply}
use mapecd.Dhcp.Client.Network.{
  Selected, received, timed_out, recv_failed, cancelled, Network, Action, pure, raise, call, lift,
  catch, ◌>>=◌, add_secs, from_secs, all_dhcp_relay_agents, destination,
}

abbrev pub ren_retrans : ℕ
ren_retrans = 10

abbrev pub reb_retrans_init : ℕ
reb_retrans_init = 10

abbrev pub reb_retrans_max : ℕ
reb_retrans_max = 30

pub data RenewalResult : Type 0 where
  expired : RenewalResult
  cancelled_renewal : RenewalResult

pub record Deadlines : Type 0 where
  pub t1_at : ℕ
  pub t2_at : ℕ
  pub expire_at : ℕ

-- `u64::MAX / 2` stands for infinity.
unfoldable pub lifetime_secs : ℕ → ℕ
lifetime_secs valid_lifetime =
    if valid_lifetime == 2 ^ 32 - 1 then (2 ^ 64 - 1) / 2 else valid_lifetime

unfoldable pub deadlines_of : ℕ → ℕ → ℕ → ℕ → Res Stop Deadlines
deadlines_of now t1 t2 valid_lifetime = bind (add_secs now t1) λ t1_at.
    bind (add_secs now t2) λ t2_at.
      bind (add_secs now (lifetime_secs valid_lifetime))
        λ expire_at. ok (record { t1_at = t1_at; t2_at = t2_at; expire_at = expire_at })

-- `rebind_rt.saturating_add(REB_RETRANS_INIT).min(REB_RETRANS_MAX)`
unfoldable pub next_rebind_rt : ℕ → ℕ
next_rebind_rt rebind_rt = min (min (rebind_rt + reb_retrans_init) (2 ^ 64 - 1)) reb_retrans_max

module _ (I : Ipnet) (D : Dhcproto) (N : Network I) where
  -- How an inner loop ends.
  pub data LoopEnd : Type 0 where
    renewed : LeaseInfo I D → LoopEnd
    to_rebind : LoopEnd
    ended : RenewalResult → LoopEnd

  -- What a datagram is to an inner loop.
  pub data Taken : Type 0 where
    ignored : Taken
    not_encoded : Taken
    taken : LeaseInfo I D → Taken

  -- From the encoded Reply on. Whether the event can be sent does not matter.
  unfoldable pub take_encoded : ℕ → List ℕ → List ℕ → Action N.World Taken
  take_encoded iaid server_duid raw_encoded = do
    lease ← catch (lift (process_reply I D raw_encoded iaid server_duid))
    elim lease [
      | none ↦ pure ignored
      | some new_lease ↦ (do
        _ ← call (N.send_event (renewal_event I D new_lease))
        pure (taken new_lease))
    ]

  unfoldable pub take_reply : ℕ → List ℕ → ℕ → List ℕ → Action N.World Taken
  take_reply iaid server_duid xid raw = elim (parse_reply D raw xid) [
    | none ↦ pure ignored
    | some msg ↦ elim (encode_msg D msg) [
      | none ↦ pure not_encoded
      | some raw_encoded ↦ take_encoded iaid server_duid raw_encoded
    ]
  ]

  module _ (duid server_duid : List ℕ) (server_unicast : Option ℕ) (iaid : ℕ) where
    -- The arms of `match result` in the Renew phase; `again` is the next round.
    unfoldable pub renew_taken : Action N.World LoopEnd → Taken → Action N.World LoopEnd
    renew_taken again ignored = again
    renew_taken again not_encoded = pure to_rebind
    renew_taken again (taken new_lease) = pure (renewed new_lease)

    -- What follows the wait of a round; `none` is the arm of T2.
    unfoldable pub renew_selected :
        ℕ → Action N.World LoopEnd → Option Selected → Action N.World LoopEnd
    renew_selected xid again none = pure to_rebind
    renew_selected xid again (some (received raw)) = do
      t ← take_reply iaid server_duid xid raw
      renew_taken again t
    renew_selected xid again (some timed_out) = again
    renew_selected xid again (some recv_failed) = again
    renew_selected xid again (some cancelled) = pure (ended cancelled_renewal)

    -- A round of the Renew phase behind its checks.
    unfoldable pub renew_round :
        D.Iapd → Deadlines → ℕ → Action N.World LoopEnd → Action N.World LoopEnd
    renew_round ia_pd deadlines xid again =
        elim (build_renew D duid server_duid xid ia_pd build_oro) [
          | none ↦ pure to_rebind
          | some renew_data ↦ (do
            _ ← call (N.send_to renew_data (destination server_unicast))
            selected ← call (N.select_until (from_secs ren_retrans) deadlines.t2_at)
            renew_selected xid again selected)
        ]

    -- The Renew phase, from T1 to T2.
    unfoldable pub renew_loop : ℕ → D.Iapd → Deadlines → ℕ → Action N.World LoopEnd
    renew_loop zero ia_pd deadlines renew_xid = raise unfinished
    renew_loop (suc rounds) ia_pd deadlines renew_xid =
        let again = renew_loop rounds ia_pd deadlines renew_xid in
        (do
          now ← call N.instant_now
          if leb deadlines.expire_at now then pure (ended expired) else (do
            later ← call N.instant_now
            if leb deadlines.t2_at later
                then pure to_rebind
                else renew_round ia_pd deadlines renew_xid again))

    unfoldable pub rebind_taken : Action N.World LoopEnd → Taken → Action N.World LoopEnd
    rebind_taken again ignored = again
    rebind_taken again not_encoded = pure (ended expired)
    rebind_taken again (taken new_lease) = pure (renewed new_lease)

    -- `none` is the arm of the lease's end.
    unfoldable pub rebind_selected :
        ℕ → ℕ → (ℕ → Action N.World LoopEnd) → Option Selected → Action N.World LoopEnd
    rebind_selected xid rebind_rt again none = pure (ended expired)
    rebind_selected xid rebind_rt again (some (received raw)) = do
      t ← take_reply iaid server_duid xid raw
      rebind_taken (again rebind_rt) t
    rebind_selected xid rebind_rt again (some timed_out) = again (next_rebind_rt rebind_rt)
    rebind_selected xid rebind_rt again (some recv_failed) = again rebind_rt
    rebind_selected xid rebind_rt again (some cancelled) = pure (ended cancelled_renewal)

    unfoldable pub rebind_round :
        D.Iapd → ℕ → ℕ → ℕ → (ℕ → Action N.World LoopEnd) → Action N.World LoopEnd
    rebind_round ia_pd expire_at xid rebind_rt again =
        elim (build_rebind D duid xid ia_pd build_oro) [
          | none ↦ pure (ended expired)
          | some rebind_data ↦ (do
            _ ← call (N.send_to rebind_data all_dhcp_relay_agents)
            selected ← call (N.select_until (from_secs rebind_rt) expire_at)
            rebind_selected xid rebind_rt again selected)
        ]

    -- The Rebind phase, from T2 to the end of the lease.
    unfoldable pub rebind_loop : ℕ → D.Iapd → ℕ → ℕ → ℕ → Action N.World LoopEnd
    rebind_loop zero ia_pd expire_at rebind_xid rebind_rt = raise unfinished
    rebind_loop (suc rounds) ia_pd expire_at rebind_xid rebind_rt =
        let again = rebind_loop rounds ia_pd expire_at rebind_xid in
        (do
          now ← call N.instant_now
          if leb expire_at now
              then pure (ended expired)
              else rebind_round ia_pd expire_at rebind_xid rebind_rt again)

    -- After the Renew phase.
    unfoldable pub rebind_phase : ℕ → D.Iapd → ℕ → LoopEnd → Action N.World LoopEnd
    rebind_phase rounds ia_pd expire_at to_rebind = do
      rebind_xid ← call N.random_xid
      rebind_loop rounds ia_pd expire_at rebind_xid reb_retrans_init
    rebind_phase rounds ia_pd expire_at (renewed new_lease) = pure (renewed new_lease)
    rebind_phase rounds ia_pd expire_at (ended result) = pure (ended result)

    -- One lease, until it is renewed or ends.
    unfoldable pub renewal_phases : ℕ → LeaseInfo I D → Action N.World LoopEnd
    renewal_phases rounds lease = do
      now ← call N.instant_now
      deadlines ← lift (deadlines_of now lease.t1 lease.t2 lease.valid_lifetime)
      slept ← call (N.sleep_until deadlines.t1_at)
      if slept
          then (do
            renew_xid ← call N.random_xid
            renew_end ← renew_loop rounds lease.ia_pd_for_release deadlines renew_xid
            rebind_phase rounds lease.ia_pd_for_release deadlines.expire_at renew_end)
          else pure (ended cancelled_renewal)

    -- The recursion on the new lease; a lease that is not renewed does not end in `to_rebind`.
    unfoldable pub do_renewal_loop : ℕ → LeaseInfo I D → Action N.World RenewalResult
    do_renewal_loop zero lease = raise unfinished
    do_renewal_loop (suc rounds) lease =
        let next = do_renewal_loop rounds in
        (do
          end ← renewal_phases rounds lease
          elim end [
            | renewed new_lease ↦ next new_lease
            | to_rebind ↦ pure expired
            | ended result ↦ pure result
          ])
