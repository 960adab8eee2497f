-- ===== src/Map/V6plus/Apart.antt =====
-- The prefixes of src/map/v6plus_rules.rs do not overlap.
use mapecd.Common.{
  ℕ, ◌+◌, ◌-◌, ◌*◌, ◌/◌, ◌%◌, ◌^◌, ◌≤◌, ◌<◌, ◌≡◌, refl, ap, arith, Bool, true, false, ◌&&◌, leb,
  ◌==◌, ==_iff, List, [], ◌∷◌, ◌++◌, take, drop, Bool-cases, inl, inr, pow_pos, All, ok, err, panic,
}
use native.Mathlib.Nat.{mod-lt, div-add-mod'}
use mapecd.Map.Net.{Ipnet, IsIpv6}
use mapecd.Map.V6plus.Row.{Row, rule_of}
use mapecd.Map.V6plus.Prefix31.{rules_from_256}
use mapecd.Map.V6plus.Table.{
  ruleprefix38_first, ruleprefix38_second, ruleprefix38_20, v6plus_map_rules,
}
use mapecd.Map.V6plus.Checks.{count_rows, all_rows-All}
use mapecd.Map.V6plus.Usable.{IsNew, row_is_usable, rows_are_usable}

-- `contains` of the crate ipnet, on an address and the prefix of a row.
abbrev pub row_contains : ℕ → Row → Bool
row_contains addr row = addr / 2 ^ (128 - row.len6) == row.addr6 / 2 ^ (128 - row.len6)

-- The address behind the prefix.
abbrev end_of : Row → ℕ
end_of row = row.addr6 + 2 ^ (128 - row.len6)

-- The prefixes have no host bits, start at `from` or above, and each starts where the one before has
-- ended.
ascend : ℕ → List Row → Bool
ascend from [] = true
ascend from (row ∷ rows) =
    leb from row.addr6
    && (row.addr6 / 2 ^ (128 - row.len6) * 2 ^ (128 - row.len6) == row.addr6
        && ascend (end_of row) rows)

contained_range :
    (addr : ℕ) (row : Row)
    → row.addr6 / 2 ^ (128 - row.len6) * 2 ^ (128 - row.len6) ≡ row.addr6
    → row_contains addr row ≡ true
    → (row.addr6 ≤ addr) × (addr < end_of row)
contained_range addr row whole h =
    let s = 2 ^ (128 - row.len6) in
    let parts = div-add-mod' addr s in
    let below : addr % s < s = mod-lt addr (pow_pos (128 - row.len6)) in
    let same : addr / s ≡ row.addr6 / s = (==_iff _ _).0 h in
    let start = ap (λ (t : ℕ). t * s) same in omega (arith, parts, below, start, whole)

ascend_above :
    (addr from : ℕ) (rows : List Row)
    → ascend from rows ≡ true
    → addr < from
    → count_rows (row_contains addr) rows ≡ 0
unfolding ascend count_rows
ascend_above addr from [] h below = refl
ascend_above addr from (row ∷ rows) h below = elim (Bool-cases (row_contains addr row)) [
  | inl inside ↦ let range = contained_range addr row (ground arith) inside in absurd (ground arith)
  | inr outside ↦
      let far : addr < end_of row = ground (arith, pow_pos (128 - row.len6)) in
      ground (arith, ascend_above addr (end_of row) rows (ground arith) far)
]

ascend_once :
    (addr from : ℕ) (rows : List Row)
    → ascend from rows ≡ true
    → count_rows (row_contains addr) rows ≤ 1
unfolding ascend count_rows
ascend_once addr from [] h = omega arith
ascend_once addr from (row ∷ rows) h = elim (Bool-cases (row_contains addr row)) [
  | inl inside ↦
      let range = contained_range addr row (ground arith) inside in
      let rest = ascend_above addr (end_of row) rows (ground arith) range.1 in ground arith
  | inr outside ↦ ground (arith, ascend_once addr (end_of row) rows)
]

count_rows-append :
    (test : Row → Bool) (xs ys : List Row)
    → count_rows test (xs ++ ys) ≡ count_rows test xs + count_rows test ys
unfolding count_rows
count_rows-append test [] ys = omega arith
count_rows-append test (row ∷ xs) ys = ground (arith, count_rows-append test xs ys)

-- The three parts of `ruleprefix31`, each of which belongs between two other runs.
abbrev lowest : List Row
lowest = take 1 rules_from_256

abbrev middle : List Row
middle = take 1 (drop 1 rules_from_256)

abbrev highest : List Row
highest = drop 2 rules_from_256

sorted_rows : List Row
sorted_rows =
    ruleprefix38_20
    ++ (lowest ++ (ruleprefix38_first ++ (middle ++ (ruleprefix38_second ++ highest))))

sorted_rows_in_order : ascend 0 sorted_rows ≡ true
unfolding ascend sorted_rows
sorted_rows_in_order = refl

row_contains_once : (addr : ℕ) → count_rows (row_contains addr) v6plus_map_rules ≤ 1
unfolding v6plus_map_rules sorted_rows
row_contains_once addr =
    let test = row_contains addr in
    let once = ascend_once addr 0 sorted_rows sorted_rows_in_order in
    let rest4 = middle ++ (ruleprefix38_second ++ highest) in
    let rest3 = ruleprefix38_first ++ rest4 in
    omega (
      arith,
      once,
      count_rows-append test ruleprefix38_20 (lowest ++ rest3),
      count_rows-append test lowest rest3,
      count_rows-append test ruleprefix38_first rest4,
      count_rows-append test middle (ruleprefix38_second ++ highest),
      count_rows-append test ruleprefix38_second highest,
      count_rows-append test ruleprefix38_first
          (ruleprefix38_second ++ (rules_from_256 ++ ruleprefix38_20)),
      count_rows-append test ruleprefix38_second (rules_from_256 ++ ruleprefix38_20),
      count_rows-append test rules_from_256 ruleprefix38_20,
      count_rows-append test lowest (middle ++ highest),
      count_rows-append test middle highest,
    )

count_rows-le :
    (test test' : Row → Bool) (rows : List Row)
    → All (λ row. test row ≡ true → test' row ≡ true) rows
    → count_rows test rows ≤ count_rows test' rows
unfolding count_rows
count_rows-le test test' [] h = omega arith
count_rows-le test test' (row ∷ rows) (first, rest) =
    ground (arith, count_rows-le test test' rows rest, first)

module _ (I : Ipnet) where
  -- The test of `try_rules` on the rule of a row.
  unfoldable pub rule_contains : ℕ → Row → Bool
  rule_contains addr row = elim (rule_of I row) [
    | ok rule ↦ I.contains6 rule.ipv6_prefix addr
    | err _ ↦ false
    | panic ↦ false
  ]

module _ (I : Ipnet) (law : IsIpv6 I) (new : IsNew I) where
  rule_contains-row_contains :
      (addr : ℕ) (row : Row)
      → row_is_usable row ≡ true
      → rule_contains I addr row ≡ true
      → row_contains addr row ≡ true
  unfolding row_is_usable rule_contains rule_of
  rule_contains-row_contains addr row usable h =
      let (net6, made6, start, len) =
        new.new6_value row.addr6 row.len6 (ground arith) (ground arith) in
      let (net4, made4, network) =
        new.new4_value row.addr4 row.len4 (ground arith) (ground arith) in
      let inside : I.contains6 net6 addr ≡ true = ground arith in
      let same = (law.contains_iff net6 addr).0 inside in (==_iff _ _).1 (rw (start, len) at same)

  -- An address is in the prefix of at most one static rule.
  pub static_rules_once : (addr : ℕ) → count_rows (rule_contains I addr) v6plus_map_rules ≤ 1
  static_rules_once addr =
      let within =
        all_rows-All row_is_usable
          (λ row. rule_contains I addr row ≡ true → row_contains addr row ≡ true)
          (rule_contains-row_contains addr) v6plus_map_rules rows_are_usable in
      omega (
        arith,
        count_rows-le (rule_contains I addr) (row_contains addr) v6plus_map_rules within,
        row_contains_once addr,
      )
