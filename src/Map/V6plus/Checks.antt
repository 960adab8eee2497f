-- ===== src/Map/V6plus/Checks.antt =====
-- Boolean tests of all rows of src/map/v6plus_rules.rs, and what they prove.
use mapecd.Common.{ℕ, suc, if◌then◌else◌, ◌≡◌, arith, Bool, true, ◌&&◌, List, [], ◌∷◌, All}
use mapecd.Map.V6plus.Row.{Row}

unfoldable pub all_rows : (Row → Bool) → List Row → Bool
all_rows test [] = true
all_rows test (row ∷ rows) = let rest = all_rows test rows in test row && rest

pub all_rows-All :
    (test : Row → Bool) (P : Row → Type 0)
    → ((row : Row) → test row ≡ true → P row)
    → (rows : List Row) → all_rows test rows ≡ true
    → All P rows
unfolding all_rows
all_rows-All test P prove [] h = tt
all_rows-All test P prove (row ∷ rows) h =
    (prove row (ground arith), all_rows-All test P prove rows (ground arith))

unfoldable pub count_rows : (Row → Bool) → List Row → ℕ
count_rows test [] = 0
count_rows test (row ∷ rows) =
    let rest = count_rows test rows in if test row then suc rest else rest
