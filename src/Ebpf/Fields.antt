-- ===== src/Ebpf/Fields.antt =====
-- egress.rs and ingress.rs on the values of a well-formed configuration: each staging value and
-- each port of this PSID has an offset and a place in its block.
use mapecd.Common.{
  ℕ, ◌+◌, ◌-◌, ◌*◌, ◌/◌, ◌%◌, ◌^◌, ◌≤◌, ◌<◌, ◌≡◌, ◌≢◌, inl, inr, refl, sym, ◌∙◌, ap, pow_pos, arith,
  ok, some, none, Option, ◌||◌, ltb, Bool-cases, bit_and, bit_and_mask,
}
use native.Mathlib.Nat.{mod-lt, div-add-mod', div-lt_iff_lt-mul, div-div-eq-div-mul}
use native.Mathlib.Decide.{ℕ_discrete}
use mapecd.Psid.{PsidConfig}
use mapecd.Psid.Geometry.{IsConfig, sizes}
use mapecd.Ebpf.Port.{egress_value, ingress_value}
use mapecd.Ebpf.Bijection.{
  port_of, staging_of, port_psid, staging_to_psid-staging_of, ingress_value-port_of,
  ingress_value_other, port_fits, config-Sizes,
}

abbrev pub InStaging : PsidConfig → ℕ → Type 0
InStaging c s = (c.staging_min ≤ s) × (s ≤ c.staging_max)

-- A port that RFC 7597 gives to the PSID of this CE.
abbrev pub IsOwnPort : PsidConfig → ℕ → Type 0
IsOwnPort c p =
    (r : ℕ) × (j : ℕ) × (1 ≤ r) × (r < 2 ^ c.offset) × (j < 2 ^ c.block_shift) × (p ≡ port_of c r j)

module _ (c : PsidConfig) (v : IsConfig c) where
  -- A staging value has an offset and a place.
  staging_fields :
      (s : ℕ)
      → InStaging c s
      → (r : ℕ) × (j : ℕ) × (1 ≤ r)
        × (r < 2 ^ c.offset)
        × (j < 2 ^ c.block_shift)
        × (s ≡ staging_of c r j)
  staging_fields s h =
      let z = sizes c.offset c.length c.block_shift v.has_offset v.widths in
      let b = 2 ^ c.block_shift in
      let idx = s - c.staging_min in
      let below : idx / b < 2 ^ c.offset - 1 =
        (div-lt_iff_lt-mul z.some_place).1 (omega (arith, v.max_value)) in
      let up : idx / b + 1 - 1 ≡ idx / b = omega arith in
      (
        idx / b + 1,
        idx % b,
        omega arith,
        omega arith,
        mod-lt idx z.some_place,
        omega (arith, div-add-mod' idx b, ap (λ (t : ℕ). t * b) up),
      )

  egress_of_fields :
      (r j : ℕ)
      → 1 ≤ r
      → r < 2 ^ c.offset
      → j < 2 ^ c.block_shift
      → egress_value c (staging_of c r j) ≡ ok (some (port_of c r j))
  unfolding egress_value
  egress_of_fields r j hr hR hj =
      let b = 2 ^ c.block_shift in
      let below : (r - 1) * b + b ≤ (2 ^ c.offset - 1) * b = grind arith in
      ground (arith, v.max_value, staging_to_psid-staging_of c v r j hr hR hj)

  -- The fields of a value that `ingress_value` takes for its own.
  own_fields :
      (p : ℕ)
      → p < 2 ^ 16
      → p / 2 ^ (16 - c.offset) ≢ 0
      → bit_and (p / 2 ^ c.block_shift) (2 ^ c.length - 1) ≡ c.psid
      → IsOwnPort c p
  own_fields p h nonzero own =
      let z = config-Sizes c v in
      let b = 2 ^ c.block_shift in
      let l = 2 ^ c.length in
      let r = p / 2 ^ (16 - c.offset) in
      let deep : p / b / l ≡ r =
        div-div-eq-div-mul p b l ∙ ap (λ (t : ℕ). p / t) (omega (arith, z.above)) in
      let psid : p / b % l ≡ c.psid = sym (bit_and_mask c.length (p / b)) ∙ own in
      let parts : r * l + c.psid ≡ p / b =
        omega (arith, div-add-mod' (p / b) l, ap (λ (t : ℕ). t * l) deep) in
      let low : r < 2 ^ c.offset =
        (div-lt_iff_lt-mul (pow_pos (16 - c.offset))).1
          (omega (arith, z.product, ap (λ (t : ℕ). 2 ^ c.offset * t) z.above)) in
      (
        r,
        p % b,
        omega arith,
        low,
        mod-lt p z.some_place,
        omega (arith, div-add-mod' p b, ap (λ (t : ℕ). t * b) parts, ap (λ (t : ℕ). r * t) z.above),
      )

  -- An own port does not fail the tests of `ingress_value`.
  pub egress-ingress_of_config :
      (s : ℕ)
      → InStaging c s
      → (p : ℕ) × (egress_value c s ≡ ok (some p))
        × IsOwnPort c p
        × (p < 2 ^ 16)
        × (ingress_value c p ≡ ok (some s))
  egress-ingress_of_config s h =
      let (r, j, hr, hR, hj, e) = staging_fields s h in
      (
        port_of c r j,
        rw e (egress_of_fields r j hr hR hj),
        (r, j, hr, hR, hj, refl),
        port_fits c v r j hr hR hj,
        rw e (ingress_value-port_of c v r j hr hR hj),
      )

  staging_of-InStaging :
      (r j : ℕ) → 1 ≤ r → r < 2 ^ c.offset → j < 2 ^ c.block_shift → InStaging c (staging_of c r j)
  staging_of-InStaging r j hr hR hj =
      let b = 2 ^ c.block_shift in
      let below : (r - 1) * b + b ≤ (2 ^ c.offset - 1) * b = grind arith in
      (omega arith, omega (arith, v.max_value))

  pub ingress-egress_of_config :
      (p : ℕ)
      → IsOwnPort c p
      → (s : ℕ) × (ingress_value c p ≡ ok (some s))
        × InStaging c s
        × (egress_value c s ≡ ok (some p))
  ingress-egress_of_config p (r, j, hr, hR, hj, e) = (
    staging_of c r j,
    rw e (ingress_value-port_of c v r j hr hR hj),
    staging_of-InStaging r j hr hR hj,
    rw e (egress_of_fields r j hr hR hj),
  )

  pub foreign_of_config : (p : ℕ) → p < 2 ^ 16 → ¬ IsOwnPort c p → ingress_value c p ≡ ok none
  foreign_of_config p h foreign = elim (ℕ_discrete (p / 2 ^ (16 - c.offset)) 0) [
    | yes zero_block ↦ ingress_value_other c v p (inl zero_block)
    | no nonzero ↦ ingress_value_other c v p (inr λ own. foreign (own_fields p h nonzero own))
  ]

  pub own_psid : (p : ℕ) → IsOwnPort c p → p / 2 ^ c.block_shift % 2 ^ c.length ≡ c.psid
  own_psid p (r, j, hr, hR, hj, e) =
      let b = 2 ^ c.block_shift in
      let l = 2 ^ c.length in
      let z = config-Sizes c v in
      let value : p ≡ r * (l * b) + c.psid * b + j =
        omega (arith, e, ap (λ (t : ℕ). r * t) z.above) in
      rw value (port_psid l b r c.psid j v.psid_fits hj)

  -- Neither translation panics.
  pub ingress_value_answers : (p : ℕ) → p < 2 ^ 16 → (a : Option ℕ) × (ingress_value c p ≡ ok a)
  ingress_value_answers p h = elim (ℕ_discrete (p / 2 ^ (16 - c.offset)) 0) [
    | yes zero_block ↦ (none, ingress_value_other c v p (inl zero_block))
    | no nonzero ↦ elim (ℕ_discrete (bit_and (p / 2 ^ c.block_shift) (2 ^ c.length - 1)) c.psid) [
      | yes own ↦
          let back = ingress-egress_of_config p (own_fields p h nonzero own) in
          (some back.0, back.1)
      | no other ↦ (none, ingress_value_other c v p (inr other))
    ]
  ]

  pub egress_value_answers : (s : ℕ) → (a : Option ℕ) × (egress_value c s ≡ ok a)
  unfolding egress_value
  egress_value_answers s = elim (Bool-cases (ltb s c.staging_min || ltb c.staging_max s)) [
    | inl outside ↦ (none, rw outside)
    | inr inside ↦ let there = egress-ingress_of_config s (ground arith) in (some there.0, there.1)
  ]
