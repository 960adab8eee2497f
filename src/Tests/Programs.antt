-- ===== src/Tests/Programs.antt =====
-- Runs of the theorems on mapecd-ebpf/src and mapecd-common/src/lib.rs.
use mapecd.Common.{
  ℕ, ◌^◌, ◌<◌, ◌≡◌, ◌≢◌, ◌↔◌, inl, refl, arith, List, [], ◌∷◌, ◌++◌, ok, panic, some, none,
  add_checked, sub_checked, mul_checked, shl_checked, shr_checked,
}
use mapecd.Psid.{PsidConfig, try_new}
use mapecd.Ebpf.Port.{block_mask, staging_to_psid, egress_value, ingress_value}
use mapecd.Ebpf.Fields.{InStaging, IsOwnPort}
use mapecd.Ebpf.Inverse.{egress-ingress, ingress-egress, translations_pass_others}
use mapecd.Ebpf.Packet.{l4_csum_offset, update_tcp_udp_csum}
use mapecd.Ebpf.Egress.{tc_egress}
use mapecd.Ebpf.Ingress.{tc_ingress}
use mapecd.Ebpf.Programs.{IsL4Packet}
use mapecd.Ebpf.Flow.{flow_returns, programs_answer, tc_egress_swaps_bytes}
use mapecd.Tests.Packets.{byte_lists, byte_lists-IsLittleEndian, byte_lists-LoadsWords}

-- The widths of v6plus and the PSID 0x34.
abbrev config : PsidConfig
config = record {
  offset = 4;
  length = 8;
  block_shift = 4;
  psid = 0x34;
  staging_min = 4096;
  staging_max = 4335;
}

config_made : try_new 4 8 0x34 ≡ ok config
unfolding try_new add_checked sub_checked mul_checked shl_checked
config_made = refl

abbrev no_offset : PsidConfig
no_offset = record {
  offset = 0;
  length = 8;
  block_shift = 0;
  psid = 0x34;
  staging_min = 1;
  staging_max = 65535;
}

no_offset_made : try_new 0 8 0x34 ≡ ok no_offset
unfolding try_new
no_offset_made = refl

egress_first : egress_value config 4096 ≡ ok (some 0x1340)
unfolding egress_value staging_to_psid block_mask add_checked sub_checked shl_checked shr_checked
egress_first = refl

abbrev header : List ℕ
header = 0x45 ∷ 0 ∷ 0 ∷ 0 ∷ 0 ∷ 0 ∷ 0 ∷ 0 ∷ 64 ∷ 6 ∷ 0 ∷ 0 ∷ 0 ∷ 0 ∷ 0 ∷ 0 ∷ 0 ∷ 0 ∷ 0 ∷ 0 ∷ []

-- A source port that the program loads as 0x1000, one that stands for it on the wire, and the two
-- packets after their translation.
abbrev sent : List ℕ
sent = header ++ (0x00 ∷ 0x10 ∷ 0 ∷ 80 ∷ [])

abbrev sent_translated : List ℕ
sent_translated = header ++ (0x40 ∷ 0x13 ∷ 0 ∷ 80 ∷ [])

abbrev reply : List ℕ
reply = header ++ (0 ∷ 80 ∷ 0x40 ∷ 0x13 ∷ [])

abbrev reply_translated : List ℕ
reply_translated = header ++ (0 ∷ 80 ∷ 0x00 ∷ 0x10 ∷ [])

abbrev on_the_wire : List ℕ
on_the_wire = header ++ (0x10 ∷ 0x00 ∷ 0 ∷ 80 ∷ [])

is_l4 : (ports : List ℕ) → IsL4Packet byte_lists (header ++ ports) 0x45 6
is_l4 ports = record { first = refl; protocol = refl; tcp_or_udp = inl refl }

egress-ingress_example :
    (p : ℕ) × (egress_value config 4096 ≡ ok (some p))
    × IsOwnPort config p
    × (p < 2 ^ 16)
    × (ingress_value config p ≡ ok (some 4096))
egress-ingress_example =
    egress-ingress 4 8 0x34 (omega arith) (omega arith) config_made 4096 (omega arith, omega arith)

ingress-egress_example :
    (s : ℕ) × (ingress_value config 0x1340 ≡ ok (some s))
    × InStaging config s
    × (egress_value config s ≡ ok (some 0x1340))
ingress-egress_example =
    ingress-egress 4 8 0x34 (omega arith) (omega arith) config_made 0x1340
      (1, 0, omega arith, omega arith, omega arith, refl)

translations_pass_others_example :
    ((ingress_value config 80 ≡ ok none) ↔ (¬ IsOwnPort config 80))
    × ((egress_value config 80 ≡ ok none) ↔ (¬ InStaging config 80))
translations_pass_others_example =
    translations_pass_others 4 8 0x34 (omega arith) (omega arith) config_made 80 (omega arith)

flow_returns_example :
    IsOwnPort config 0x1340
    × (tc_egress byte_lists (some config) sent
        ≡ ok (0, update_tcp_udp_csum byte_lists sent_translated (l4_csum_offset 20 6) 4096 0x1340))
    × (tc_ingress byte_lists (some config) reply
        ≡ ok (0, update_tcp_udp_csum byte_lists reply_translated (l4_csum_offset 20 6) 0x1340 4096))
flow_returns_example =
    flow_returns byte_lists 4 8 0x34 (omega arith) (omega arith) config_made sent sent_translated
      reply reply_translated 0x45 6 0x45 6 4096 0x1340 (is_l4 (0x00 ∷ 0x10 ∷ 0 ∷ 80 ∷ []))
      (is_l4 (0 ∷ 80 ∷ 0x40 ∷ 0x13 ∷ [])) (omega arith, omega arith) egress_first refl refl refl
      refl

programs_answer_example :
    (tc_egress byte_lists (some config) sent ≢ panic)
    × (tc_ingress byte_lists (some config) sent ≢ panic)
programs_answer_example =
    programs_answer byte_lists 4 8 0x34 byte_lists-LoadsWords (omega arith) config_made sent

tc_egress_swaps_bytes_example : tc_egress byte_lists (some config) on_the_wire ≡ ok (0, on_the_wire)
tc_egress_swaps_bytes_example =
    tc_egress_swaps_bytes byte_lists byte_lists-IsLittleEndian 0x34 (omega arith) config_made
      on_the_wire 0x45 6 0x10 0x00 (is_l4 (0x10 ∷ 0x00 ∷ 0 ∷ 80 ∷ [])) refl refl
      (omega arith, omega arith) (omega arith)
