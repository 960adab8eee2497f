-- ===== src/Ebpf/Inverse.antt =====
-- egress.rs and ingress.rs against one another: no packet of a flow is lost between the staging
-- range that netfilter uses and the ports that RFC 7597 gives to this PSID.
use mapecd.Common.{
  ℕ, ◌≤◌, ◌<◌, ◌^◌, ◌-◌, ◌/◌, ◌%◌, ◌≡◌, ◌↔◌, ok, some, none, arith, sym, ◌∙◌, subst,
}
use mapecd.Psid.{PsidConfig, try_new}
use mapecd.Psid.Geometry.{expected, expected-IsConfig, try_new-IsConfig, try_new-eq-ok}
use mapecd.Ebpf.Port.{egress_value, ingress_value}
use mapecd.Ebpf.Fields.{
  InStaging, IsOwnPort, egress-ingress_of_config, ingress-egress_of_config, foreign_of_config,
  own_psid,
}

module _ (o l psid : ℕ) {c : PsidConfig} (has : 1 ≤ o) (small : psid < 2 ^ l)
    (made : try_new o l psid ≡ ok c) where
  -- For a configuration that `try_new` makes from a nonzero offset and a PSID of its width: every
  -- value of the staging range is translated by egress to a port of this PSID, without a panic,
  -- and ingress translates that port back to the value.
  pub egress-ingress :
      (s : ℕ)
      → InStaging c s
      → (p : ℕ) × (egress_value c s ≡ ok (some p))
        × IsOwnPort c p
        × (p < 2 ^ 16)
        × (ingress_value c p ≡ ok (some s))
  egress-ingress = egress-ingress_of_config c (try_new-IsConfig o l psid has small made)

  -- For such a configuration every port of this PSID is translated by ingress to a value of the
  -- staging range, and egress translates that value back to the port.
  pub ingress-egress :
      (p : ℕ)
      → IsOwnPort c p
      → (s : ℕ) × (ingress_value c p ≡ ok (some s))
        × InStaging c s
        × (egress_value c s ≡ ok (some p))
  ingress-egress = ingress-egress_of_config c (try_new-IsConfig o l psid has small made)

  -- For such a configuration a 16-bit port is passed by ingress as it is exactly where it is not of
  -- this PSID, and a value is passed by egress exactly where it is outside the staging range; a pass
  -- is an answer, not a panic.
  pub translations_pass_others :
      (x : ℕ)
      → x < 2 ^ 16
      → ((ingress_value c x ≡ ok none) ↔ (¬ IsOwnPort c x))
        × ((egress_value c x ≡ ok none) ↔ (¬ InStaging c x))
  unfolding egress_value
  translations_pass_others x h = (
    (
      λ passed own. let (_, translated, _, _) = ingress-egress x own in cc,
      foreign_of_config c (try_new-IsConfig o l psid has small made) x h,
    ),
    (
      λ passed inside. let (_, translated, _, _, _) = egress-ingress x inside in cc,
      λ outside. ground arith,
    ),
  )

psid_of_own_port :
    (o l psid p : ℕ) {c : PsidConfig}
    → 1 ≤ o
    → psid < 2 ^ l
    → try_new o l psid ≡ ok c
    → IsOwnPort c p
    → p / 2 ^ (16 - o - l) % 2 ^ l ≡ psid
unfolding expected
psid_of_own_port o l psid p {c} has small made own =
    let (fits, same) = try_new-eq-ok o l psid has made in
    own_psid (expected o l psid) (expected-IsConfig o l psid has fits small) p
      (subst (λ (d : PsidConfig). IsOwnPort d p) same own)

-- Two CEs that share an address and differ in their PSIDs have no port in common: where both
-- configurations are made by `try_new` from the same nonzero offset and PSID width, a port of both
-- gives them the same PSID.
pub IsOwnPort-psid_unique :
    (o l psid psid' p : ℕ) {c c' : PsidConfig}
    → 1 ≤ o
    → psid < 2 ^ l
    → psid' < 2 ^ l
    → try_new o l psid ≡ ok c
    → try_new o l psid' ≡ ok c'
    → IsOwnPort c p
    → IsOwnPort c' p
    → psid ≡ psid'
IsOwnPort-psid_unique o l psid psid' p has small small' made made' own own' =
    sym (psid_of_own_port o l psid p has small made own)
    ∙ psid_of_own_port o l psid' p has small' made' own'
