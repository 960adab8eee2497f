-- ===== src/Tests/Nft.antt =====
-- Runs of the theorems on src/nftables/manager.rs, and texts that it prints.
use mapecd.Common.{◌+◌, ◌*◌, ◌^◌, ◌≡◌, refl, arith, [], ◌∷◌, none, List, ok}
use mapecd.Map.Rule.{PortRange}
use mapecd.Map.PortSet.{calc_port_ranges}
use mapecd.Map.PortSet.Allocation.{IsPortSet}
use mapecd.Nft.Display.{
  codes, digits, decimal, hex, segments_from, longest_zeros, subslice, ipv4_text, ipv6_text,
}
use mapecd.Nft.{range_text, format_port_elements}
use mapecd.Nft.Elements.{read_elements}
use mapecd.Nft.Allocated.{format_port_elements-calc_port_ranges}

abbrev several : PortRange
several = record { start = 4101; last = 4357 }

abbrev single : PortRange
single = record { start = 8192; last = 8192 }

printed : format_port_elements (several ∷ single ∷ []) ≡ codes "4101-4357, 8192"
unfolding format_port_elements range_text decimal digits
printed = refl

-- 2001:db8::1, and the longer of two runs of zeros.
printed_address : ipv6_text (0x20010db8 * 2 ^ 96 + 1) ≡ codes "2001:db8::1"
unfolding ipv6_text segments_from longest_zeros subslice hex digits
printed_address = refl

printed_first_run : ipv6_text (1 * 2 ^ 112 + 0xab * 2 ^ 64 + 2) ≡ codes "1:0:0:ab::2"
unfolding ipv6_text segments_from longest_zeros subslice hex digits
printed_first_run = refl

printed_mapped : ipv6_text (0xffff * 2 ^ 32 + 0xc0000201) ≡ codes "::ffff:192.0.2.1"
unfolding ipv6_text ipv4_text decimal digits
printed_mapped = refl

format_port_elements-calc_port_ranges_example :
    (ranges : List PortRange) × (calc_port_ranges (record { psid_offset = 4; psid_length = 8 }) 0x34
      ≡ ok ranges)
    × (read_elements none 0 (format_port_elements ranges) ≡ ranges)
    × IsPortSet 4 8 0x34 ranges
format_port_elements-calc_port_ranges_example =
    format_port_elements-calc_port_ranges 4 8 0x34 (omega arith) (omega arith)
