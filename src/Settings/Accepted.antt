-- ===== src/Settings/Accepted.antt =====
-- Which configurations `Config::validate` (src/config.rs) accepts.
use mapecd.Common.{
  ℕ, ◌≤◌, ◌≡◌, ◌≢◌, ◌↔◌, refl, arith, Bool, true, [], ◌∷◌, All, Option, none, some, ok, Bool-cases,
  inl, inr,
}
use mapecd.Daemon.Host.{Text, Config}
use mapecd.Settings.{
  text_len, text_eq, is_allowed, all_allowed, validate_interface_name, validate_mtu, validate,
}

text_eq_refl : (t : Text) → text_eq t t ≡ true
unfolding text_eq
text_eq_refl [] = refl
text_eq_refl (c ∷ t) = ground (arith, text_eq_refl t)

text_eq_sound : (t t' : Text) → text_eq t t' ≡ true → t ≡ t'
unfolding text_eq
text_eq_sound [] [] h = refl
text_eq_sound [] (c ∷ t') h = absurd cc
text_eq_sound (c ∷ t) [] h = absurd cc
text_eq_sound (c ∷ t) (c' ∷ t') h = elim (Bool-cases (text_eq t t')) [
  | inl same ↦
      let tail = text_eq_sound t t' same in let head : c ≡ c' = ground arith in rw (head, tail) refl
  | inr other ↦ absurd (ground arith)
]

module _ (is_alphanumeric : ℕ → Bool) where
  -- A name for an interface: not empty, at most 15 bytes, and of allowed characters.
  pub record IsInterfaceName (name : Text) : Type 0 where
    pub nonempty : name ≢ []
    pub short : text_len name ≤ 15
    pub allowed : All (λ c. is_allowed is_alphanumeric c ≡ true) name

  all_allowed-All :
      (t : Text)
      → (all_allowed is_alphanumeric t ≡ true) ↔ All (λ c. is_allowed is_alphanumeric c ≡ true) t
  unfolding all_allowed
  all_allowed-All [] = (λ _. tt, λ _. refl)
  all_allowed-All (c ∷ t) =
      let tail = all_allowed-All t in
      (
        λ h. (ground arith, tail.0 (ground arith)),
        λ h. let rest = tail.1 h.1 in let here = h.0 in ground arith,
      )

  IsInterfaceName-accepted :
      (name : Text) → (validate_interface_name is_alphanumeric name ≡ ok tt) ↔ IsInterfaceName name
  unfolding validate_interface_name
  IsInterfaceName-accepted [] = (λ h. absurd cc, λ v. absurd (v.nonempty refl))
  IsInterfaceName-accepted (c ∷ t) =
      let letters = all_allowed-All (c ∷ t) in
      (
        λ h. record {
          nonempty = λ e. cc;
          short = ground arith;
          allowed = letters.0 (ground arith);
        },
        λ v. let good = letters.1 v.allowed in ground (arith, v.short),
      )

  abbrev pub MtuFits : Option ℕ → Type 0
  MtuFits none = Unit
  MtuFits (some mtu) = (1280 ≤ mtu) × (mtu ≤ 65535)

  mtu_accepted : (mtu : Option ℕ) → (validate_mtu is_alphanumeric mtu ≡ ok tt) ↔ MtuFits mtu
  unfolding validate_mtu
  mtu_accepted none = (λ _. tt, λ _. refl)
  mtu_accepted (some mtu) = ground arith

  -- A configuration that the daemon can use.
  pub record IsUsableConfig (config : Config) : Type 0 where
    pub upstream : IsInterfaceName config.upstream_interface
    pub tunnel : IsInterfaceName config.tunnel_interface
    pub differ : config.upstream_interface ≢ config.tunnel_interface
    pub mtu : MtuFits config.tunnel_mtu

  -- `validate` accepts exactly the configurations whose two interface names are not empty, have at
  -- most 15 bytes and only allowed characters, and differ, and whose MTU, if one is given, is from
  -- 1280 to 65535.
  pub validate-IsUsableConfig :
      (config : Config) → (validate is_alphanumeric config ≡ ok tt) ↔ IsUsableConfig config
  unfolding validate
  validate-IsUsableConfig config =
      let up = IsInterfaceName-accepted config.upstream_interface in
      let tunnel = IsInterfaceName-accepted config.tunnel_interface in
      let mtu = mtu_accepted config.tunnel_mtu in
      (
        λ h. record {
          upstream = up.0 (ground arith);
          tunnel = tunnel.0 (ground arith);
          differ = λ same.
              let equal : text_eq config.upstream_interface config.tunnel_interface ≡ true =
                rw same (text_eq_refl config.tunnel_interface) in
              ground arith;
          mtu = mtu.0 (ground arith);
        },
        λ v.
            let first = up.1 v.upstream in
            let second = tunnel.1 v.tunnel in
            let third = mtu.1 v.mtu in
            elim (Bool-cases (text_eq config.upstream_interface config.tunnel_interface)) [
              | inl same ↦
                  absurd (
                    v.differ (text_eq_sound config.upstream_interface config.tunnel_interface same))
              | inr other ↦ ground arith
            ],
      )
