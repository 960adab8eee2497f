-- ===== src/Daemon/State/Answers.antt =====
-- What `DaemonState::try_compute` (src/daemon/state.rs) answers for well-formed rules.
use mapecd.Common.{
  ◌≡◌, ◌+◌, ◌⊎◌, inl, inr, refl, ◌∙◌, arith, true, false, is_empty, List, [], ◌∷◌, All, some, ok,
  err, Bool-cases,
}
use native.Mathlib.Decide.{ℕ_discrete}
use mapecd.Map.Net.{Ipnet, IsIpv6}
use mapecd.Map.Rule.{no_prefix_match, CeFormat, MapRule, MapeParams}
use mapecd.Map.Calc.WellFormed.{IsWellFormed}
use mapecd.Map.Calc.Address.{FormatFits, compute_mape_params_value, compute_mape_params_mismatch}
use mapecd.Daemon.State.{DaemonState, try_rules, store_params, try_compute_rules, try_compute}
use mapecd.Daemon.State.Choice.{
  IsSkipped, IsFirst, try_rules-skip, try_rules-take, try_rules-IsFirst,
}

module _ (I : Ipnet) (law : IsIpv6 I) (ce : I.Ipv6Net) (format : CeFormat) where
  -- A rule that the program can compute with in this format.
  abbrev pub IsUsable : MapRule I → Type 0
  IsUsable rule = IsWellFormed I rule × FormatFits format rule.port_params.psid_length

  -- The rule is for this delegated prefix: it contains the address, and the length is right.
  abbrev pub Serves : MapRule I → Type 0
  Serves rule =
      (I.contains6 rule.ipv6_prefix (I.addr6 ce) ≡ true)
      × (I.prefix_len6 ce ≡ I.prefix_len6 rule.ipv6_prefix + rule.ea_length)

  abbrev pub NoneServes : List (MapRule I) → Type 0
  NoneServes rules = All (λ rule. ¬ Serves rule) rules

  abbrev Answer : List (MapRule I) → Type 0
  Answer rules =
      ((p : MapeParams I) × (try_rules I ce format rules ≡ ok p) × (¬ NoneServes rules))
      ⊎ ((try_rules I ce format rules ≡ err no_prefix_match) × NoneServes rules)

  Answer-cons :
      (rule : MapRule I) (rules : List (MapRule I))
      → IsSkipped I ce format rule
      → ¬ Serves rule
      → Answer rules
      → Answer (rule ∷ rules)
  Answer-cons rule rules skipped other (inl (p, found, served)) = inl (
    p,
    try_rules-skip I ce format rule rules skipped ∙ found,
    λ none_serves. served none_serves.1,
  )
  Answer-cons rule rules skipped other (inr (missing, none_serves)) =
      inr (try_rules-skip I ce format rule rules skipped ∙ missing, (other, none_serves))

  -- Either some parameters come out, or no rule is for the prefix.
  rules-Answer : (rules : List (MapRule I)) → All IsUsable rules → Answer rules
  unfolding try_rules
  rules-Answer [] usable = inr (refl, tt)
  rules-Answer (rule ∷ rules) usable =
      let v = usable.0.0 in
      elim (Bool-cases (I.contains6 rule.ipv6_prefix (I.addr6 ce))) [
        | inl inside ↦
            elim (ℕ_discrete (I.prefix_len6 ce) (I.prefix_len6 rule.ipv6_prefix + rule.ea_length)) [
              | yes len ↦
                  let (ranges, computed, _) =
                    compute_mape_params_value I law rule v ce len format usable.0.1 in
                  inl (
                    _,
                    try_rules-take I ce format rule rules inside computed,
                    λ none_serves. none_serves.0 (inside, len),
                  )
              | no other ↦
                  let failed = compute_mape_params_mismatch I rule v ce format other in
                  Answer-cons rule rules (inr (_, failed)) (λ s. other s.1)
                    (rules-Answer rules usable.1)
            ]
        | inr outside ↦
            Answer-cons rule rules (inl outside) (λ s. cc (s.0)) (rules-Answer rules usable.1)
      ]

  -- With the inputs complete and every pending rule usable, `try_compute` either stores the
  -- parameters of the first rule that contains the prefix and computes, changes no other field and
  -- answers `Ok(true)`, and then some rule is for the prefix; or no rule is, and it answers
  -- `NoPrefixMatch` with the state unchanged. It does not panic.
  pub try_compute_answers :
      {Text E : Type 0} (state : DaemonState I Text E) (rules : List (MapRule I))
      → state.pending_map_rules ≡ some rules
      → is_empty rules ≡ false
      → state.pending_ia_pd ≡ some ce
      → All IsUsable rules
      → ((p : MapeParams I) × IsFirst I ce format rules p
          × (try_compute I format state ≡ (ok true, record state { params = some p }))
          × (¬ NoneServes rules))
        ⊎ ((try_compute I format state ≡ (err no_prefix_match, state)) × NoneServes rules)
  unfolding try_compute try_compute_rules store_params
  try_compute_answers state rules pending nonempty prefix usable =
      elim (rules-Answer rules usable) [
        | inl (p, found, served) ↦
            inl (p, (try_rules-IsFirst I ce format rules p).0 found, ground arith, served)
        | inr (missing, none_serves) ↦ inr (ground arith, none_serves)
      ]
