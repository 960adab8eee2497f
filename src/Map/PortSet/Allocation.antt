-- ===== src/Map/PortSet/Allocation.antt =====
-- What `calc_port_ranges` (src/map/port_set.rs) answers, and how it stands to RFC 7597.
use mapecd.Common.{
  Has, ℕ, ◌+◌, ◌-◌, ◌*◌, ◌/◌, ◌%◌, ◌^◌, ◌≤◌, ◌<◌, ◌≡◌, ◌≢◌, ◌↔◌, List, arith, length, ok, panic,
  ok-injective, sym, ◌∙◌, subst, pow_pos, sub_checked, shl_checked,
}
use mapecd.Map.Rule.{PortParams, PortRange}
use mapecd.Map.PortSet.{ports_from, merge, calc_port_ranges}
use mapecd.Map.PortSet.Merge.{expand, expand-merge, IsSeparated, merge-IsSeparated}
use mapecd.Map.PortSet.Ports.{
  IsAscending, formula, Widths, Has-ports, length-ports_from, IsAscending-ports, All-ports,
  calc_value,
}
use mapecd.Psid.{PsidConfig, try_new}
use mapecd.Psid.Geometry.{expected, try_new-eq-ok}
use mapecd.Ebpf.Fields.{IsOwnPort}

-- The ports that the comment of `calc_port_ranges` describes, as ranges.
pub record IsPortSet (a k psid : ℕ) (ranges : List PortRange) : Type 0 where
  pub members :
      (p : ℕ)
      → Has p (expand ranges) ↔ (
          (r : ℕ) × (j : ℕ) × (1 ≤ r)
          × (r < 2 ^ (16 - a - k))
          × (j < 2 ^ a)
          × (p ≡ formula a k psid r j))
  pub ascending : IsAscending (2 ^ (a + k)) (expand ranges)
  pub count : length (expand ranges) ≡ (2 ^ (16 - a - k) - 1) * 2 ^ a
  pub separated : IsSeparated ranges

-- For widths that fit a port and a PSID of its width the answer is a list of ranges whose ports are
-- exactly R * 2^(a+k) + j * 2^k + PSID for R from 1 to 2^(16-a-k) - 1 and j below 2^a, in strictly
-- ascending order, (2^(16-a-k) - 1) * 2^a of them, in ranges that cannot be joined further.
pub calc_port_ranges-IsPortSet :
    (a k psid : ℕ)
    → a + k ≤ 16
    → psid < 2 ^ k
    → (ranges : List PortRange) × (calc_port_ranges
          (record { psid_offset = a; psid_length = k })
          psid
        ≡ ok ranges)
      × IsPortSet a k psid ranges
calc_port_ranges-IsPortSet a k psid fits small =
    let w : Widths a k psid = record { fits = fits; psid_fits = small } in
    let rows = 2 ^ (16 - a - k) - 1 in
    let ports = ports_from a k psid (2 ^ a) rows 1 in
    let same = expand-merge ports in
    let room = pow_pos (16 - a - k) in
    let end : 1 + rows ≡ 2 ^ (16 - a - k) = omega arith in
    let one_row : 1 * 2 ^ (a + k) ≡ 2 ^ (a + k) = omega arith in
    (
      merge ports,
      calc_value a k psid w,
      record {
        members = λ p. rw same (rw end at (Has-ports a k psid w p rows 1 (omega arith)));
        ascending = rw same (rw one_row at (IsAscending-ports a k psid w rows 1 (omega arith)));
        count = rw same (length-ports_from a k psid w rows 1);
        separated = merge-IsSeparated ports (All-ports a k psid w rows 1);
      },
    )

-- `calc_port_ranges` panics exactly where the two widths do not fit the 16 bits of a port.
pub calc_port_ranges-eq-panic_iff :
    (port_params : PortParams) (psid : ℕ)
    → (calc_port_ranges port_params psid ≡ panic)
      ↔ (16 < port_params.psid_offset + port_params.psid_length)
unfolding calc_port_ranges sub_checked shl_checked
calc_port_ranges-eq-panic_iff port_params psid = ground arith

digits_clash :
    (psid r j r' j' : ℕ)
    → psid < 256
    → psid / 16 ≢ psid % 16
    → j < 16
    → j' < 16
    → r * 4096 + j * 256 + psid ≢ r' * 4096 + psid * 16 + j'
digits_clash psid r j r' j' small digits hj hj' e = omega arith

-- The ports of `calc_port_ranges` are not those of RFC 7597, to which the eBPF programs translate:
-- with the v6plus widths (4 and 8), for a PSID whose two hexadecimal digits differ, no port of the
-- ranges is a port of that PSID.
pub calc_port_ranges_not_own :
    (psid : ℕ) {c : PsidConfig} {ranges : List PortRange}
    → psid < 2 ^ 8
    → psid / 16 ≢ psid % 16
    → try_new 4 8 psid ≡ ok c
    → calc_port_ranges (record { psid_offset = 4; psid_length = 8 }) psid ≡ ok ranges
    → (p : ℕ) → Has p (expand ranges)
    → ¬ IsOwnPort c p
unfolding expected
calc_port_ranges_not_own psid {c} {ranges} small digits made listed p has own =
    let (fits, same) = try_new-eq-ok 4 8 psid (omega arith) made in
    let (ranges', listed', set) = calc_port_ranges-IsPortSet 4 8 psid (omega arith) small in
    let equal : ranges ≡ ranges' = ok-injective (sym listed ∙ listed') in
    let has' : Has p (expand ranges') = rw equal at has in
    let (r, j, r_lo, r_hi, j_hi, e) = (set.members p).0 has' in
    let own' : IsOwnPort (expected 4 8 psid) p =
      subst (λ (d : PsidConfig). IsOwnPort d p) same own in
    let (r', j', _, _, j'_hi, e') = own' in
    digits_clash psid r j r' j' small digits j_hi j'_hi (sym e ∙ e')
