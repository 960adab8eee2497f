-- ===== src/Daemon/Start/Static.antt =====
-- Which of the static rules of src/map/v6plus_rules.rs the loop of src/daemon/state.rs takes.
use mapecd.Common.{
  Has, ℕ, ◌≤◌, ◌≡◌, refl, sym, ap, ◌∙◌, subst, arith, inl, inr, Bool, true, false, Bool-cases, List,
  [], ◌∷◌, Res, ok, err, panic, Res-cases, ok-injective,
}
use mapecd.Map.Net.{Ipnet, IsIpv6}
use mapecd.Map.Rule.{MapeError, no_prefix_match, CeFormat, MapRule, MapeParams}
use mapecd.Map.Calc.{compute_mape_params}
use mapecd.Map.V6plus.Row.{Row, rule_of}
use mapecd.Map.V6plus.Table.{v6plus_map_rules}
use mapecd.Map.V6plus.Checks.{count_rows}
use mapecd.Map.V6plus.Usable.{IsNew}
use mapecd.Map.V6plus.Apart.{rule_contains, static_rules_once}
use mapecd.Daemon.State.{try_rules}
use mapecd.Daemon.Start.{rules_of_rows}

-- The rows of the table in some order: as many pass each test.
abbrev pub IsReordering : List Row → Type 0
IsReordering rows = (test : Row → Bool) → count_rows test rows ≡ count_rows test v6plus_map_rules

module _ (I : Ipnet) (ce : I.Ipv6Net) (format : CeFormat) where
  -- What one rule alone makes of the prefix.
  abbrev pub only_by : MapRule I → Res MapeError (MapeParams I)
  only_by rule = elim (compute_mape_params I ce rule format) [
    | ok p ↦ ok p
    | err _ ↦ err no_prefix_match
    | panic ↦ panic
  ]

  abbrev test : Row → Bool
  test row = rule_contains I (I.addr6 ce) row

  rules_of_rows_cons :
      (row : Row) (rows : List Row) (rules : List (MapRule I))
      → rules_of_rows I (row ∷ rows) ≡ ok rules
      → (rule : MapRule I) × (rest : List (MapRule I)) × (rule_of I row ≡ ok rule)
        × (rules_of_rows I rows ≡ ok rest)
        × (rules ≡ rule ∷ rest)
  unfolding rules_of_rows
  rules_of_rows_cons row rows rules h = elim (Res-cases (rule_of I row)) [
    | inr broken ↦ absurd (ground arith)
    | inl (rule, made) ↦ elim (Res-cases (rules_of_rows I rows)) [
      | inr broken ↦ absurd (ground arith)
      | inl (rest, others) ↦
          (rule, rest, made, others, ok-injective (sym h ∙ rw (made, others) refl))
    ]
  ]

  test_value :
      (row : Row) (rule : MapRule I)
      → rule_of I row ≡ ok rule
      → test row ≡ I.contains6 rule.ipv6_prefix (I.addr6 ce)
  unfolding rule_contains
  test_value row rule made =
      ap
        (λ (r : Res MapeError (MapRule I)). elim r as (λ _. Bool) [
          | ok made_rule ↦ I.contains6 made_rule.ipv6_prefix (I.addr6 ce)
          | err _ ↦ false
          | panic ↦ false
        ])
        made

  none_contains :
      (rows : List Row) (rules : List (MapRule I))
      → rules_of_rows I rows ≡ ok rules
      → count_rows test rows ≡ 0
      → try_rules I ce format rules ≡ err no_prefix_match
  unfolding try_rules count_rows rules_of_rows
  none_contains [] rules h zero = let e : [] ≡ rules = ok-injective h in rw (← e) refl
  none_contains (row ∷ rows) rules h zero =
      let (rule, rest, made, others, same) = rules_of_rows_cons row rows rules h in
      let outside : test row ≡ false = ground arith in
      let outside' = sym (test_value row rule made) ∙ outside in
      rw (same, outside') (none_contains rows rest others (ground arith))

  counted :
      (rows : List Row) (row : Row) → Has row rows → test row ≡ true → 1 ≤ count_rows test rows
  unfolding count_rows
  counted [] row has inside = absurd has
  counted (first ∷ rows) row (inl e) inside =
      let inside' : test first ≡ true = subst (λ (r : Row). test r ≡ true) e inside in
      rw inside' (omega arith)
  counted (first ∷ rows) row (inr later) inside = ground (arith, counted rows row later inside)

  -- Only the first rule contains the prefix.
  first_contains :
      (rule : MapRule I) (rest : List (MapRule I))
      → I.contains6 rule.ipv6_prefix (I.addr6 ce) ≡ true
      → try_rules I ce format rest ≡ err no_prefix_match
      → try_rules I ce format (rule ∷ rest) ≡ only_by rule
  unfolding try_rules
  first_contains rule rest inside none_later =
      elim (Res-cases (compute_mape_params I ce rule format)) [
        | inl (p, computed) ↦ ground arith
        | inr broken ↦ ground arith
      ]

  one_contains :
      (rows : List Row) (rules : List (MapRule I)) (row : Row) (rule : MapRule I)
      → rules_of_rows I rows ≡ ok rules
      → count_rows test rows ≤ 1
      → Has row rows
      → rule_of I row ≡ ok rule
      → test row ≡ true
      → try_rules I ce format rules ≡ only_by rule
  unfolding try_rules count_rows
  one_contains [] rules row rule h once has made inside = absurd has
  one_contains (first ∷ rows) rules row rule h once has made inside =
      let (rule', rest, made', others, same) = rules_of_rows_cons first rows rules h in
      let value = test_value first rule' made' in
      elim (Bool-cases (test first)) [
        | inl here ↦
            let none_later : count_rows test rows ≡ 0 = ground arith in
            let rest_fails = none_contains rows rest others none_later in
            elim has [
              | inr later ↦ let one = counted rows row later inside in absurd (omega (arith, one))
              | inl e ↦
                  let one_rule : rule' ≡ rule =
                    ok-injective (sym made' ∙ ap (rule_of I) (sym e) ∙ made) in
                  rw (same, one_rule)
                    (first_contains rule rest
                      (subst (λ (r : MapRule I). I.contains6 r.ipv6_prefix (I.addr6 ce) ≡ true)
                        one_rule (sym value ∙ here))
                      rest_fails)
            ]
        | inr outside ↦
            let outside' = sym value ∙ outside in
            elim has [
              | inl e ↦
                  let here = subst (λ (r : Row). test r ≡ true) e inside in absurd (ground arith)
              | inr later ↦
                  rw (same, outside')
                    (one_contains rows rest row rule others (ground arith) later made inside)
            ]
      ]

module _ (I : Ipnet) (law : IsIpv6 I) (new : IsNew I) where
  -- The order of the static rules does not matter: where the prefix of a static rule has the address
  -- of the delegated prefix, `try_rules` on the rules of the table, in whatever order, computes with
  -- this rule and no other; `NoPrefixMatch` is the answer where that computation fails.
  pub static_rules_choice :
      (rows : List Row) (rules : List (MapRule I)) (row : Row) (rule : MapRule I) (ce : I.Ipv6Net)
      (format : CeFormat)
      → IsReordering rows
      → rules_of_rows I rows ≡ ok rules
      → Has row rows
      → rule_of I row ≡ ok rule
      → I.contains6 rule.ipv6_prefix (I.addr6 ce) ≡ true
      → try_rules I ce format rules ≡ only_by I ce format rule
  static_rules_choice rows rules row rule ce format order all has made inside =
      let test = rule_contains I (I.addr6 ce) in
      let once : count_rows test rows ≤ 1 =
        subst (λ (n : ℕ). n ≤ 1) (sym (order test)) (static_rules_once I law new (I.addr6 ce)) in
      one_contains I ce format rows rules row rule all once has made
        (test_value I ce format row rule made ∙ inside)
