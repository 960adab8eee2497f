-- ===== src/Dhcp.antt =====
-- src/dhcpv6: the options of RFC 7598 and the delegated prefix of a DHCPv6 reply (parser.rs), and
-- captured frames (capture.rs).
pub mod Options
pub mod Rules
pub mod Prefix
pub mod Capture
pub mod Client
pub mod Watcher
