-- ===== src/Map/PortSet.antt =====
-- src/map/port_set.rs.
pub mod Merge
pub mod Ports
pub mod Allocation
use mapecd.Common.{
  ℕ, zero, suc, ◌+◌, ◌-◌, ◌*◌, ◌%◌, ◌^◌, List, [], ◌∷◌, ◌++◌, ◌==◌, ltb, if◌then◌else◌, Bool, false,
  ◌&&◌, Res, ok, ◌>>=◌, sub_checked, shl_checked,
}
use mapecd.Map.Rule.{MapeError, PortParams, PortRange}

-- Port(R, j), computed in a `u32`, which its terms fit (each is below 2 ^ 16), and cut to a `u16`.
unfoldable pub port : ℕ → ℕ → ℕ → ℕ → ℕ → ℕ
port a k psid r j = (r * 2 ^ (a + k) + j * 2 ^ k + psid) % 2 ^ 16

-- `for j in 0..j_count`, from `j` with `left` rounds left.
unfoldable pub ports_of_r : ℕ → ℕ → ℕ → ℕ → ℕ → ℕ → List ℕ
ports_of_r a k psid r zero j = []
ports_of_r a k psid r (suc left) j = port a k psid r j ∷ ports_of_r a k psid r left (j + 1)

-- `for r in 1..r_count`, from `r` with `left` rounds left.
unfoldable pub ports_from : ℕ → ℕ → ℕ → ℕ → ℕ → ℕ → List ℕ
ports_from a k psid j_count zero r = []
ports_from a k psid j_count (suc left) r =
    ports_of_r a k psid r j_count 0 ++ ports_from a k psid j_count left (r + 1)

-- `end.checked_add(1) == Some(port)` on `u16`.
unfoldable pub is_next : ℕ → ℕ → Bool
is_next end port = ltb (end + 1) (2 ^ 16) && end + 1 == port

-- The merging loop and the push behind it, with the current range `start..=end`.
unfoldable pub merge_from : ℕ → ℕ → List ℕ → List PortRange
merge_from start end [] = record { start = start; last = end } ∷ []
merge_from start end (port ∷ ports) =
    if is_next end port
    then merge_from start port ports
    else record { start = start; last = end } ∷ merge_from port port ports

unfoldable pub merge : List ℕ → List PortRange
merge [] = []
merge (first ∷ rest) = merge_from first first rest

unfoldable pub calc_port_ranges : PortParams → ℕ → Res MapeError (List PortRange)
calc_port_ranges port_params psid = do
  let a = port_params.psid_offset
  let k = port_params.psid_length
  above ← sub_checked 16 a
  shift ← sub_checked above k
  r_count ← shl_checked 32 1 shift
  j_count ← shl_checked 32 1 a
  ok (merge (ports_from a k psid j_count (r_count - 1) 1))
