-- ===== src/Ebpf/Packet.antt =====
-- What egress.rs and ingress.rs share on a whole packet (the constants that stand in both, the
-- field that is translated, its write-back), and checksum.rs.
use mapecd.Common.{ℕ, ◌+◌, bit_or, Bool, Option, none, some, ◌==◌, if◌then◌else◌, Res, ok, ◌>>=◌}
use mapecd.Ebpf.Context.{TcContext, or_err}

-- The constants of both programs.
abbrev pub ipproto_tcp : ℕ
ipproto_tcp = 6

abbrev pub ipproto_udp : ℕ
ipproto_udp = 17

abbrev pub ipproto_icmp : ℕ
ipproto_icmp = 1

abbrev pub ipv4_ihl_offset : ℕ
ipv4_ihl_offset = 0

abbrev pub ipv4_proto_offset : ℕ
ipv4_proto_offset = 9

abbrev pub icmp_type_offset : ℕ
icmp_type_offset = 0

abbrev pub icmp_csum_offset : ℕ
icmp_csum_offset = 2

abbrev pub icmp_id_offset : ℕ
icmp_id_offset = 4

-- The value to translate, where it stands, and its checksum.
pub record Field : Type 0 where
  pub value : ℕ
  pub port_pkt_offset : ℕ
  pub csum_pkt_offset : ℕ
  pub is_icmp : Bool

-- Offset of the checksum of a TCP or UDP header.
unfoldable pub l4_csum_offset : ℕ → ℕ → ℕ
l4_csum_offset l4_offset proto = if proto == ipproto_tcp then l4_offset + 16 else l4_offset + 6

module _ (t : TcContext) where
  open t use {Ctx, load_u16, store_u16, l4_csum_replace, bpf_f_pseudo_hdr}

  -- A failed replacement leaves the packet as it is; both callers drop the error.
  unfoldable pub update_tcp_udp_csum : Ctx → ℕ → ℕ → ℕ → Ctx
  update_tcp_udp_csum ctx csum_offset old_val new_val =
      elim (l4_csum_replace ctx csum_offset old_val new_val (bit_or 2 bpf_f_pseudo_hdr)) [
        | none ↦ ctx
        | some ctx' ↦ ctx'
      ]

  unfoldable pub update_icmp_csum : Ctx → ℕ → ℕ → ℕ → Ctx
  update_icmp_csum ctx csum_offset old_val new_val =
      elim (l4_csum_replace ctx csum_offset old_val new_val 2) [ none ↦ ctx | some ctx' ↦ ctx' ]

  -- The end of both programs: write the new value and mend the checksum.
  unfoldable pub rewrite : Ctx → Field → ℕ → Res Unit Ctx
  rewrite ctx f new_val = do
    ctx' ← or_err (store_u16 ctx f.port_pkt_offset new_val)
    ok (
        if f.is_icmp
        then update_icmp_csum ctx' f.csum_pkt_offset f.value new_val
        else update_tcp_udp_csum ctx' f.csum_pkt_offset f.value new_val)

  -- The value of a field, read from the packet.
  unfoldable pub load_field : Ctx → ℕ → ℕ → Bool → Res Unit (Option Field)
  load_field ctx offset csum_offset icmp = do
    value ← or_err (load_u16 ctx offset)
    ok (
        some (record {
          value = value;
          port_pkt_offset = offset;
          csum_pkt_offset = csum_offset;
          is_icmp = icmp;
        }))
