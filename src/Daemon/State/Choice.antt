-- ===== src/Daemon/State/Choice.antt =====
-- Which rule `DaemonState::try_compute` (src/daemon/state.rs) takes.
use mapecd.Common.{
  ◌≡◌, ◌↔◌, ◌⊎◌, inl, inr, refl, ap, sym, ◌∙◌, true, false, List, [], ◌∷◌, ◌++◌, All, Res, ok, err,
  panic, Bool-cases, ok-injective,
}
use mapecd.Map.Net.{Ipnet}
use mapecd.Map.Rule.{MapeError, CeFormat, MapRule, MapeParams}
use mapecd.Map.Calc.{compute_mape_params}
use mapecd.Daemon.State.{try_rules}

module _ (I : Ipnet) (ce : I.Ipv6Net) (format : CeFormat) where
  -- A rule that the loop passes over.
  abbrev pub IsSkipped : MapRule I → Type 0
  IsSkipped rule =
      (I.contains6 rule.ipv6_prefix (I.addr6 ce) ≡ false)
      ⊎ ((e : MapeError) × (compute_mape_params I ce rule format ≡ err e))

  -- The parameters of a rule behind rules that are all passed over.
  pub record IsFirst (rules : List (MapRule I)) (p : MapeParams I) : Type 0 where
    pub before : List (MapRule I)
    pub rule : MapRule I
    pub after : List (MapRule I)
    pub place : rules ≡ before ++ rule ∷ after
    pub skipped : All IsSkipped before
    pub inside : I.contains6 rule.ipv6_prefix (I.addr6 ce) ≡ true
    pub computed : compute_mape_params I ce rule format ≡ ok p

  pub try_rules-skip :
      (rule : MapRule I) (rules : List (MapRule I))
      → IsSkipped rule
      → try_rules I ce format (rule ∷ rules) ≡ try_rules I ce format rules
  unfolding try_rules
  try_rules-skip rule rules (inl outside) = rw outside refl
  try_rules-skip rule rules (inr (e, failed)) =
      elim (Bool-cases (I.contains6 rule.ipv6_prefix (I.addr6 ce))) [
        | inl inside ↦ rw (inside, failed) refl
        | inr outside ↦ rw outside refl
      ]

  pub try_rules-take :
      (rule : MapRule I) (rules : List (MapRule I)) {p : MapeParams I}
      → I.contains6 rule.ipv6_prefix (I.addr6 ce) ≡ true
      → compute_mape_params I ce rule format ≡ ok p
      → try_rules I ce format (rule ∷ rules) ≡ ok p
  unfolding try_rules
  try_rules-take rule rules inside computed = rw (inside, computed) refl

  try_rules-panic :
      (rule : MapRule I) (rules : List (MapRule I))
      → I.contains6 rule.ipv6_prefix (I.addr6 ce) ≡ true
      → compute_mape_params I ce rule format ≡ panic
      → try_rules I ce format (rule ∷ rules) ≡ panic
  unfolding try_rules
  try_rules-panic rule rules inside computed = rw (inside, computed) refl

  -- What the loop makes of one rule.
  data RuleCase (rule : MapRule I) : Type 0 where
    skip : IsSkipped rule → RuleCase rule
    take :
        (p : MapeParams I)
        → I.contains6 rule.ipv6_prefix (I.addr6 ce) ≡ true
        → compute_mape_params I ce rule format ≡ ok p
        → RuleCase rule
    broken :
        I.contains6 rule.ipv6_prefix (I.addr6 ce) ≡ true
        → compute_mape_params I ce rule format ≡ panic
        → RuleCase rule

  case_of_answer :
      (rule : MapRule I) (m : Res MapeError (MapeParams I))
      → compute_mape_params I ce rule format ≡ m
      → I.contains6 rule.ipv6_prefix (I.addr6 ce) ≡ true
      → RuleCase rule
  case_of_answer rule (ok p) e inside = take p inside e
  case_of_answer rule (err x) e inside = skip (inr (x, e))
  case_of_answer rule panic e inside = broken inside e

  rule_case : (rule : MapRule I) → RuleCase rule
  rule_case rule = elim (Bool-cases (I.contains6 rule.ipv6_prefix (I.addr6 ce))) [
    | inl inside ↦ case_of_answer rule (compute_mape_params I ce rule format) refl inside
    | inr outside ↦ skip (inl outside)
  ]

  IsFirst-cons :
      (rule : MapRule I) (rules : List (MapRule I)) {p : MapeParams I}
      → IsSkipped rule
      → IsFirst rules p
      → IsFirst (rule ∷ rules) p
  IsFirst-cons rule rules s f = record {
    before = rule ∷ f.before;
    rule = f.rule;
    after = f.after;
    place = ap (λ l. rule ∷ l) f.place;
    skipped = (s, f.skipped);
    inside = f.inside;
    computed = f.computed;
  }

  IsFirst-of_ok :
      (rules : List (MapRule I)) {p : MapeParams I}
      → try_rules I ce format rules ≡ ok p
      → IsFirst rules p
  unfolding try_rules
  IsFirst-of_ok [] h = absurd cc
  IsFirst-of_ok (rule ∷ rules) {p} h = elim (rule_case rule) [
    | skip s ↦
        IsFirst-cons rule rules s (IsFirst-of_ok rules (sym (try_rules-skip rule rules s) ∙ h))
    | take q inside computed ↦
        let same : q ≡ p = ok-injective (sym (try_rules-take rule rules inside computed) ∙ h) in
        record {
          before = [];
          rule = rule;
          after = rules;
          place = refl;
          skipped = tt;
          inside = inside;
          computed = rw same at computed;
        }
    | broken inside computed ↦ absurd (cc (try_rules-panic rule rules inside computed))
  ]

  ok_of_split :
      (before : List (MapRule I)) (rule : MapRule I) (after : List (MapRule I)) {p : MapeParams I}
      → All IsSkipped before
      → I.contains6 rule.ipv6_prefix (I.addr6 ce) ≡ true
      → compute_mape_params I ce rule format ≡ ok p
      → try_rules I ce format (before ++ rule ∷ after) ≡ ok p
  ok_of_split [] rule after s inside computed = try_rules-take rule after inside computed
  ok_of_split (r ∷ before) rule after s inside computed =
      try_rules-skip r (before ++ rule ∷ after) s.0
      ∙ ok_of_split before rule after s.1 inside computed

  -- The loop over the rules answers with parameters exactly where they are those of the first rule
  -- that contains the address of the delegated prefix and computes.
  pub try_rules-IsFirst :
      (rules : List (MapRule I)) (p : MapeParams I)
      → (try_rules I ce format rules ≡ ok p) ↔ IsFirst rules p
  try_rules-IsFirst rules p = (
    IsFirst-of_ok rules,
    λ f. rw f.place (ok_of_split f.before f.rule f.after f.skipped f.inside f.computed),
  )
