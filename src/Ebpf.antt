-- ===== src/Ebpf.antt =====
-- mapecd-ebpf/src: the TC programs that translate ports between the staging range, which netfilter
-- masquerades to, and the ports of this CE's PSID.
pub mod Port
pub mod Bijection
pub mod Fields
pub mod Inverse
pub mod Context
pub mod Packet
pub mod Egress
pub mod Ingress
pub mod Programs
pub mod Flow
