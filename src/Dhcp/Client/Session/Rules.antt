-- ===== src/Dhcp/Client/Session/Rules.antt =====
-- What a lease of src/dhcpv6/client.rs does to the rules of the daemon (src/daemon/runner.rs).
use mapecd.Common.{◌≡◌, arith, false, [], some}
use mapecd.Map.Net.{Ipnet}
use mapecd.Daemon.Host.{Host, Config}
use mapecd.Daemon.Monad.{Run}
use mapecd.Daemon.Cache.{CacheFormat}
use mapecd.Daemon.Runner.{handle_event}
use mapecd.Daemon.Runner.Inputs.{handle_event_inputs}
use mapecd.Dhcp.Client.Message.{Dhcproto}
use mapecd.Dhcp.Client.Lease.{LeaseInfo, lease_event, renewal_event}

-- A Reply without rules, which stands for the rules that are known, drops them where the lease is
-- the first one: without static rules, the daemon is left with an empty list of pending rules. A
-- renewed lease without rules leaves the pending rules as they are. Both set the pending prefix.
pub empty_lease_drops_rules :
    (I : Ipnet) (D : Dhcproto) (H : Host) (F : CacheFormat I) (config : Config)
    (lease : LeaseInfo I D) (run : Run I H)
    → config.use_v6plus_static_rules ≡ false
    → lease.rules ≡ []
    → let first = (handle_event I H F config (lease_event I D lease) run).1.state in
      let renewed = (handle_event I H F config (renewal_event I D lease) run).1.state in
      (first.pending_map_rules ≡ some [])
      × (first.pending_ia_pd ≡ some lease.prefix)
      × (renewed.pending_map_rules ≡ run.state.pending_map_rules)
      × (renewed.pending_ia_pd ≡ some lease.prefix)
unfolding lease_event renewal_event
empty_lease_drops_rules I D H F config lease run dynamic no_rules =
    let first = handle_event_inputs I H F config (lease_event I D lease) run in
    let renewed = handle_event_inputs I H F config (renewal_event I D lease) run in ground arith
