-- ===== src/Dhcp/Client/Session.antt =====
-- The client as a whole: `run_client` of src/dhcpv6/client.rs.
pub mod Rules
use mapecd.Common.{ℕ, zero, suc, ◌+◌, if◌then◌else◌, Bool, List, Option, none, some}
use mapecd.Map.Net.{Ipnet}
use mapecd.Daemon.Host.{Text}
use mapecd.Dhcp.Client.Message.{Dhcproto}
use mapecd.Dhcp.Client.Build.{build_release}
use mapecd.Dhcp.Client.Lease.{unfinished, LeaseInfo, lease_event}
use mapecd.Dhcp.Client.Network.{
  Network, Action, pure, raise, call, catch, try_call, effect, ◌>>=◌, ◌>>◌, destination,
}
use mapecd.Dhcp.Client.Exchange.{do_initial_exchange}
use mapecd.Dhcp.Client.Renewal.{RenewalResult, expired, cancelled_renewal, do_renewal_loop}
use mapecd.Dhcp.Client.Duid.{get_iaid, load_or_create_duid}

abbrev pub release_timeout : ℕ
release_timeout = 2

module _ (I : Ipnet) (D : Dhcproto) (N : Network I) where
  -- The Release of a cancelled client.
  unfoldable pub send_release : List ℕ → LeaseInfo I D → Action N.World Unit
  send_release duid lease = do
    xid ← call N.random_xid
    elim (build_release D duid lease.server_duid xid lease.ia_pd_for_release) [
      | none ↦ pure tt
      | some bytes ↦ effect (N.send_within release_timeout bytes (destination lease.server_unicast))
    ]

  -- From a lease on; `again` is the next round of the loop.
  unfoldable pub keep_lease :
      ℕ → List ℕ → ℕ → LeaseInfo I D → Action N.World Unit → Action N.World Unit
  keep_lease rounds duid iaid lease again = do
    sent ← call (N.send_event (lease_event I D lease))
    if sent
        then (do
          result ←
              do_renewal_loop I D N duid lease.server_duid lease.server_unicast iaid rounds lease
          elim result [ expired ↦ again | cancelled_renewal ↦ send_release duid lease ])
        else pure tt

  unfoldable pub client_loop : ℕ → List ℕ → ℕ → Action N.World Unit
  client_loop zero duid iaid = raise unfinished
  client_loop (suc rounds) duid iaid =
      let again = client_loop rounds duid iaid in
      let round : Action N.World Unit = (do
        exchanged ← catch (do_initial_exchange I D N rounds duid iaid)
        elim exchanged [
          | none ↦ (do slept ← call (N.sleep 5); if slept then again else pure tt)
          | some answer ↦ elim answer [
            | none ↦ again
            | some lease ↦ keep_lease rounds duid iaid lease again
          ]
        ]) in
      (do stopped ← call N.is_cancelled; if stopped then pure tt else round)

  unfoldable pub run_client : ℕ → Text → Text → Action N.World Unit
  run_client rounds upstream_interface duid_file = do
    iaid ← get_iaid N upstream_interface
    duid ← load_or_create_duid N upstream_interface duid_file
    try_call (N.create_socket upstream_interface)
    client_loop rounds duid iaid
