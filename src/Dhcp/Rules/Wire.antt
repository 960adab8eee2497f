-- ===== src/Dhcp/Rules/Wire.antt =====
-- The layout of RFC 7598 against the parser of src/dhcpv6/parser.rs.
use mapecd.Common.{
  ℕ, ◌^◌, ◌<◌, ◌≡◌, refl, ap, ◌∙◌, arith, ◌==◌, if◌then◌else◌, List, [], ◌∷◌, ◌++◌, All, length,
  false, Bool-cases, inl, inr, Option, none, some, Option-cases, err,
}
use mathlib.Core.List.{append_assoc}
use mapecd.Map.Net.{Ipnet}
use mapecd.Map.Rule.{missing_br_address}
use mapecd.Dhcp.Options.Encoding.{Entry, encode, run_entries, iter_opts-encode}
use mapecd.Dhcp.Rules.{
  opt_s46_rule, opt_s46_br, parse_s46_br, Container, take_br, take_option, parse_rules,
  rules_of_container, parse_s46_cont_mape,
}

-- Options whose codes and lengths fit their two bytes.
abbrev pub Fit : List Entry → Type 0
Fit es = All (λ e. (e.0 < 2 ^ 16) × (length e.1 < 2 ^ 16)) es

-- The first BR address that can be read, and the payloads of the rules.
abbrev pub br_of : List Entry → Option ℕ
br_of [] = none
br_of (e ∷ es) =
    let rest = br_of es in
    if e.0 == opt_s46_br
    then elim (parse_s46_br e.1) [ none ↦ rest | some addr ↦ some addr ]
    else rest

abbrev pub rules_of : List Entry → List (List ℕ)
rules_of [] = []
rules_of (e ∷ es) = let rest = rules_of es in if e.0 == opt_s46_rule then e.1 ∷ rest else rest

abbrev collection : Option ℕ → List (List ℕ) → Container
collection br payloads = record { br_addr = br; rule_payloads = payloads }

abbrev first_of : Option ℕ → Option ℕ → Option ℕ
first_of none later = later
first_of (some addr) later = some addr

append-nil : (xs : List (List ℕ)) → xs ++ [] ≡ xs
append-nil [] = refl
append-nil (x ∷ xs) = ap (λ l. x ∷ l) (append-nil xs)

take_br_value :
    (bytes : List ℕ) (br : Option ℕ) (payloads : List (List ℕ))
    → take_br bytes (record { br_addr = br; rule_payloads = payloads })
      ≡ record { br_addr = first_of br (parse_s46_br bytes); rule_payloads = payloads }
unfolding take_br
take_br_value bytes (some a) payloads = refl
take_br_value bytes none payloads = elim (Option-cases (parse_s46_br bytes)) [
  | inl missing ↦ ground arith
  | inr (addr, found) ↦ ground arith
]

first_of-later :
    (br found later : Option ℕ)
    → first_of (first_of br found) later
      ≡ first_of br (elim found [ none ↦ later | some addr ↦ some addr ])
first_of-later (some a) found later = refl
first_of-later none none later = refl
first_of-later none (some a) later = refl

-- What the closure collects from encoded options.
collected :
    (es : List Entry) (br : Option ℕ) (payloads : List (List ℕ))
    → run_entries take_option es (record { br_addr = br; rule_payloads = payloads })
      ≡ record { br_addr = first_of br (br_of es); rule_payloads = payloads ++ rules_of es }
unfolding take_option take_br
collected [] none payloads = rw append-nil refl
collected [] (some a) payloads = rw append-nil refl
collected (e ∷ es) br payloads = elim (Bool-cases (e.0 == opt_s46_br)) [
  | inl is_br ↦
      let no_rule : (e.0 == opt_s46_rule) ≡ false = ground arith in
      rw (is_br, no_rule, take_br_value e.1 br payloads)
        (collected es (first_of br (parse_s46_br e.1)) payloads
          ∙ ap (λ (o : Option ℕ). collection o (payloads ++ rules_of es))
              (first_of-later br (parse_s46_br e.1) (br_of es)))
  | inr other ↦ elim (Bool-cases (e.0 == opt_s46_rule)) [
    | inl is_rule ↦
        rw (other, is_rule)
          (collected es br (payloads ++ e.1 ∷ [])
            ∙ rw (append_assoc payloads (e.1 ∷ []) (rules_of es)) refl)
    | inr rest ↦ rw (other, rest) (collected es br payloads)
  ]
]

module _ (I : Ipnet) where
  -- A container is read as it is written: of encoded options, the rules come in their order, with the
  -- address of the first BR option that holds one; without such an option the answer is
  -- `MissingBrAddress`.
  pub parse_s46_cont_mape-encode :
      (es : List Entry)
      → Fit es
      → parse_s46_cont_mape I (encode es) ≡ elim (br_of es) [
        | none ↦ err missing_br_address
        | some br ↦ parse_rules I (rules_of es) br
      ]
  unfolding parse_s46_cont_mape rules_of_container
  parse_s46_cont_mape-encode es fits =
      let read =
        iter_opts-encode take_option es (record { br_addr = none; rule_payloads = [] }) fits in
      ap (rules_of_container I) (read ∙ collected es none [])
