-- ===== src/Dhcp/Client.antt =====
-- The DHCPv6 client of src/dhcpv6/client.rs: its messages, the exchange with a server, the renewal
-- of a lease, and the loop around them.
pub mod Message
pub mod Build
pub mod Lease
pub mod Network
pub mod Exchange
pub mod Duid
pub mod Renewal
pub mod Session
