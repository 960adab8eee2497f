-- ===== src/Nft/Allocated.antt =====
-- The set of src/nftables/manager.rs for the ranges of src/map/port_set.rs.
use mapecd.Common.{
  Has, ℕ, ◌+◌, ◌-◌, ◌^◌, ◌<◌, ◌≡◌, List, [], ◌∷◌, arith, All, Bool-cases, inl, inr, ok,
  ok-injective, sym, ◌∙◌, none, refl, pow_pos, suc, pow-suc,
}
use mapecd.Map.Rule.{PortRange}
use mapecd.Map.PortSet.{is_next, merge_from, merge, ports_from, calc_port_ranges}
use mapecd.Map.PortSet.Merge.{expand}
use mapecd.Map.PortSet.Ports.{formula, Widths, All-ports, calc_value}
use mapecd.Map.PortSet.Allocation.{IsPortSet, calc_port_ranges-IsPortSet}
use mapecd.Nft.{format_port_elements}
use mapecd.Nft.Elements.{IsPortRange, read_elements, read_elements-format_port_elements}

merge_from_fits :
    (start end : ℕ) (ports : List ℕ)
    → start < 2 ^ 16
    → end < 2 ^ 16
    → All (λ p. p < 2 ^ 16) ports
    → All IsPortRange (merge_from start end ports)
unfolding merge_from
merge_from_fits start end [] start_fits end_fits fit = ((start_fits, end_fits), tt)
merge_from_fits start end (p ∷ ports) start_fits end_fits (fits, fit) =
    elim (Bool-cases (is_next end p)) [
      | inl next ↦ rw next (merge_from_fits start p ports start_fits fits fit)
      | inr apart ↦ rw apart ((start_fits, end_fits), merge_from_fits p p ports fits fits fit)
    ]

merge_fits : (ports : List ℕ) → All (λ p. p < 2 ^ 16) ports → All IsPortRange (merge ports)
unfolding merge
merge_fits [] fit = tt
merge_fits (p ∷ ports) (fits, fit) = merge_from_fits p p ports fits fits fit

read_back :
    (ranges : List PortRange) (p : ℕ)
    → All IsPortRange ranges
    → Has p (expand ranges)
    → read_elements none 0 (format_port_elements ranges) ≡ ranges
unfolding expand
read_back [] p fit has = absurd has
read_back (r ∷ ranges) p fit has = read_elements-format_port_elements r ranges fit

-- The set of a PSID: for widths that leave a bit of a port for R, and a PSID of its width,
-- `calc_port_ranges` answers ranges that the elements which `format_port_elements` prints, read
-- number by number and dash by dash up to each comma, give back in their order, and whose ports are
-- exactly those of the PSID by the comment of `calc_port_ranges`.
pub format_port_elements-calc_port_ranges :
    (a k psid : ℕ)
    → a + k < 16
    → psid < 2 ^ k
    → (ranges : List PortRange) × (calc_port_ranges
          (record { psid_offset = a; psid_length = k })
          psid
        ≡ ok ranges)
      × (read_elements none 0 (format_port_elements ranges) ≡ ranges)
      × IsPortSet a k psid ranges
format_port_elements-calc_port_ranges a k psid fits small =
    let w : Widths a k psid = record { fits = omega arith; psid_fits = small } in
    let ports = ports_from a k psid (2 ^ a) (2 ^ (16 - a - k) - 1) 1 in
    let (ranges, listed, set) = calc_port_ranges-IsPortSet a k psid (omega arith) small in
    let merged : merge ports ≡ ranges = ok-injective (sym (calc_value a k psid w) ∙ listed) in
    let fit : All IsPortRange ranges =
      rw merged at (merge_fits ports (All-ports a k psid w (2 ^ (16 - a - k) - 1) 1)) in
    let rest = 15 - a - k in
    let width : 16 - a - k ≡ suc rest = omega arith in
    let power = pow-suc 2 rest in
    let some_room = pow_pos rest in
    let room : 1 < 2 ^ (16 - a - k) = rw width (omega (arith, power, some_room)) in
    let has = (set.members (formula a k psid 1 0)).1 (1, 0, omega arith, room, pow_pos a, refl) in
    (ranges, listed, read_back ranges (formula a k psid 1 0) fit has, set)
