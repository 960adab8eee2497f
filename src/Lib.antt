-- ===== src/Lib.antt =====
-- mapecd, a daemon for MAP-E customer edges (RFC 7597): what its code computes and does.
--
-- The program has these parts. A rule of the provider (src/map/rule.rs) and the delegated prefix of
-- the customer give the identity of the CE: its IPv4 address, PSID, tunnel address and port set
-- (src/map/calc.rs, src/map/port_set.rs). The daemon reads the rules and the prefix from DHCPv6
-- replies (src/dhcpv6/parser.rs), computes the identity as soon as both are there
-- (src/daemon/state.rs), and configures the host for it, changes that or takes it back
-- (src/daemon/lifecycle.rs) as events come in (src/daemon/runner.rs). The parameters of the
-- port translation (mapecd-common/src/lib.rs) go to two eBPF programs on the tunnel
-- (mapecd-ebpf/src): netfilter masquerades to a staging range of consecutive ports, egress translates
-- a staging port to a port of the PSID, and ingress translates it back.
--
-- Files and what they model:
-- Psid.antt is mapecd-common/src/lib.rs: `PsidConfig` and `try_new`; Psid/Geometry.antt has what the
-- fields mean.
-- Ebpf/ is mapecd-ebpf/src: Port.antt has the arithmetic of both programs on one value, Packet.antt
-- the constants, the field that is translated and checksum.rs, Egress.antt and Ingress.antt the
-- programs. The packet buffer of aya-ebpf is the parameter `TcContext` of Context.antt. Bijection,
-- Fields, Inverse, Programs and Flow are about them.
-- Map/Rule.antt is src/map/rule.rs and src/error.rs, Map/PortSet.antt src/map/port_set.rs,
-- Map/Calc.antt src/map/calc.rs. The crate ipnet is the parameter `Ipnet` of Map/Net.antt, and
-- `IsIpv6` what the program relies on there.
-- Daemon/State.antt is src/daemon/state.rs.
-- Daemon/Host.antt is what the daemon calls: the traits of src/netlink/mod.rs, src/ebpf/manager.rs and
-- src/nftables/manager.rs and the files, as the parameter `Host`, where each call takes the world and
-- returns it. Daemon/Monad.antt has the methods over it, Daemon/Sysctl.antt, Daemon/Lifecycle.antt and
-- Daemon/Lifecycle/Change.antt are src/daemon/lifecycle.rs, Daemon/Cache.antt, Daemon/Runner.antt and
-- Daemon/Start.antt src/daemon/runner.rs; the theorems on them hold for every host. What `nft` is handed
-- is the data type `Script`: a rule set stands for the five values that its text is made of, and
-- `script_text` of Nft.antt is the text, src/nftables/manager.rs. Nft/Display.antt prints as Rust does.
-- Netlink.antt and Netlink/Tunnel.antt are src/netlink/addr.rs, route.rs and tunnel.rs, with rtnetlink as
-- the parameter `Kernel`; `IsRouting` of Netlink/Routes.antt is what is relied on in the routing table.
-- Daemon/Runner/Inputs.antt has the machine of the inputs that the event loop implements.
-- Daemon/Lifecycle/Calls.antt has a host that notes its calls, for their order.
-- Dhcp/ is src/dhcpv6/parser.rs: Options.antt has the scan of options, Rules.antt the MAP rules of
-- option 94, Prefix.antt the delegated prefix. dhcproto's `Message::decode` is the argument `decode`.
-- The scan runs on as many rounds as the payload has bytes; each round takes at least four.
-- Dhcp/Capture.antt is src/dhcpv6/capture.rs from a captured frame to the event it sends.
-- Settings.antt is `validate` of src/config.rs.
-- Map/V6plus/ is src/map/v6plus_rules.rs: a row of the table on each line, in files for its runs, and the
-- whole in Table.antt; `IsNew` of Map/V6plus/Usable.antt is what is relied on in ipnet's `new`.
-- Dhcp/Client/ is src/dhcpv6/client.rs: Message.antt and Build.antt its messages, with the crate dhcproto
-- as the parameter `Dhcproto`, Lease.antt `process_reply`, Exchange.antt `do_initial_exchange`,
-- Renewal.antt `do_renewal_loop`, Session.antt `run_client`, Duid.antt the DUID. Socket, clock, random
-- numbers, channel and files are the parameter `Network` of Network.antt, where each call takes the world
-- and returns it. Each loop has a bound on its rounds and answers `unfinished` there; Renewal/Lifetime
-- shows that as many rounds suffice as the lifetime has nanoseconds and the socket has arrivals, which
-- `IsClock` bounds. The factor of a jitter is computed without the rounding of `f64`.
-- Dhcp/Watcher.antt is src/dhcpv6/lease_watcher.rs from an inotify event to the event it sends.
-- Common/ has the checked arithmetic (`Res`, in Common/Outcome.antt), laws of shifts and masks
-- (Common/Bits.antt) and lists. Tests/ has networks and packets that stand for the crates and a run
-- of each theorem.
--
-- Conventions. Numbers are ℕ; an operation at a width of w bits is checked, as in a build with
-- overflow checks: what leaves the width is `panic`, and a cast is `% 2 ^ w`. A method with `&mut
-- self` takes the state and returns the new one. Logging and the texts of errors are left out. Loops
-- are structural recursion: over a list, or over the number of rounds left.
--
-- Not modelled: the sockets and the kernel interfaces (the loading of the programs in
-- src/ebpf/manager.rs, the set-up of inotify, the options of the client's socket, the capture
-- socket), which are input and output; the command that is run with the text of a rule set; the lock
-- on the PID file; the command line; and serde's encodings.
pub mod Common
pub mod Psid
pub mod Ebpf
pub mod Map
pub mod Daemon
pub mod Dhcp
pub mod Settings
pub mod Netlink
pub mod Nft
pub mod Tests
