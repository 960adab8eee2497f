-- ===== src/Nft.antt =====
-- What `nft` is handed: `format_port_elements`, `generate_ruleset` and `delete_tables` of
-- src/nftables/manager.rs.
pub mod Display
pub mod Elements
pub mod Allocated
use mapecd.Common.{ℕ, ◌==◌, if◌then◌else◌, List, [], ◌∷◌, ◌++◌}
use mapecd.Map.Rule.{PortRange}
use mapecd.Daemon.Host.{Text, Script, nft_ruleset, nft_deletion}
use mapecd.Nft.Display.{codes, decimal, ipv6_text}

-- The closure of `map`.
unfoldable pub range_text : PortRange → Text
range_text r =
    if r.start == r.last then decimal r.start else decimal r.start ++ (b'-' ∷ decimal r.last)

-- `join(", ")`
unfoldable pub format_port_elements : List PortRange → Text
format_port_elements [] = []
format_port_elements (r ∷ []) = range_text r
format_port_elements (r ∷ (r' ∷ ranges)) =
    range_text r ++ (codes ", " ++ format_port_elements (r' ∷ ranges))

-- Lines, with the line feed of each.
unfoldable pub text_of_lines : List Text → Text
text_of_lines [] = []
text_of_lines (line ∷ rest) = line ++ (10 ∷ text_of_lines rest)

unfoldable pub generate_ruleset : List PortRange → Text → ℕ → ℕ → ℕ → Text
generate_ruleset port_ranges tunnel_interface br_address staging_min staging_max = text_of_lines (
    codes "add table ip mapecd"
    ∷ codes "flush table ip mapecd"
    ∷ codes "add table ip6 mapecd"
    ∷ codes "flush table ip6 mapecd"
    ∷ []
    ∷ codes "table ip mapecd {"
    ∷ codes "    set port_ranges {"
    ∷ codes "        type inet_service"
    ∷ codes "        flags interval"
    ∷ (codes "        elements = { " ++ (format_port_elements port_ranges ++ codes " }"))
    ∷ codes "    }"
    ∷ []
    ∷ codes "    chain postrouting {"
    ∷ codes "        type nat hook postrouting priority srcnat;"
    ∷ (codes "        oifname \""
        ++ (tunnel_interface
            ++ (codes "\" meta l4proto { tcp, udp, icmp } masquerade to :"
                ++ (decimal staging_min ++ (b'-' ∷ decimal staging_max)))))
    ∷ codes "    }"
    ∷ []
    ∷ codes "    chain forward {"
    ∷ codes "        type filter hook forward priority filter;"
    ∷ (codes "        oifname \""
        ++ (tunnel_interface ++ codes "\" tcp flags syn tcp option maxseg size set rt mtu"))
    ∷ (codes "        iifname \""
        ++ (tunnel_interface ++ codes "\" tcp flags syn tcp option maxseg size set rt mtu"))
    ∷ codes "    }"
    ∷ codes "}"
    ∷ []
    ∷ codes "table ip6 mapecd {"
    ∷ codes "    chain prerouting {"
    ∷ codes "        type filter hook prerouting priority filter;"
    ∷ (codes "        ip6 saddr != " ++ (ipv6_text br_address ++ codes " ip6 nexthdr 4 drop"))
    ∷ codes "    }"
    ∷ codes "}"
    ∷ [])

-- The text of a script.
unfoldable pub script_text : Script → Text
script_text (nft_ruleset port_ranges tunnel_interface br_address staging_min staging_max) =
    generate_ruleset port_ranges tunnel_interface br_address staging_min staging_max
script_text nft_deletion =
    text_of_lines (codes "delete table ip mapecd" ∷ codes "delete table ip6 mapecd" ∷ [])
