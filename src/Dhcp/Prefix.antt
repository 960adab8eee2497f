-- ===== src/Dhcp/Prefix.antt =====
-- The delegated prefix of src/dhcpv6/parser.rs: `parse_ia_pd_info` and what it calls. The options
-- inside an IA_PD are those that the program tells apart.
pub mod Timers
use mapecd.Common.{
  ℕ, zero, suc, ◌+◌, ◌*◌, ◌/◌, ◌%◌, ◌^◌, ◌-◌, ◌==◌, not, if◌then◌else◌, Bool, true, false, List, [],
  ◌∷◌, Option, none, some,
}
use mapecd.Map.Net.{Ipnet}
use mapecd.Dhcp.Rules.{DhcpOption, ia_pd, unknown, other}

-- `IAPrefix` of dhcproto, as far as it is read.
pub record IaPrefix : Type 0 where
  pub prefix_ip : ℕ
  pub prefix_len : ℕ
  pub valid_lifetime : ℕ

-- An option inside an IA_PD; `status` tells whether a status code is `Success`.
pub data PdOption : Type 0 where
  ia_prefix : IaPrefix → PdOption
  status : Bool → PdOption
  other_option : PdOption

-- `IAPD` of dhcproto.
pub record IaPd : Type 0 where
  pub id : ℕ
  pub t1 : ℕ
  pub t2 : ℕ
  pub opts : List PdOption

-- The body of the loop of `find_iapd` and what follows it, with the variable `first`.
unfoldable pub find_iapd_from : Option IaPd → List (DhcpOption IaPd) → Option ℕ → Option IaPd
find_iapd_from first [] iaid = first
find_iapd_from first (ia_pd iapd ∷ opts) none =
    find_iapd_from (elim first [ none ↦ some iapd | some f ↦ some f ]) opts none
find_iapd_from first (ia_pd iapd ∷ opts) (some id) =
    let rest = find_iapd_from (elim first [ none ↦ some iapd | some f ↦ some f ]) opts (some id) in
    if iapd.id == id then some iapd else rest
find_iapd_from first (unknown _ _ ∷ opts) iaid = find_iapd_from first opts iaid
find_iapd_from first (other ∷ opts) iaid = find_iapd_from first opts iaid

unfoldable pub find_iapd : List (DhcpOption IaPd) → Option ℕ → Option IaPd
find_iapd opts iaid = find_iapd_from none opts iaid

-- `iapd.opts.iter().find_map(…)`
unfoldable pub find_iaprefix : List PdOption → Option IaPrefix
find_iaprefix [] = none
find_iaprefix (ia_prefix p ∷ opts) = some p
find_iaprefix (status _ ∷ opts) = find_iaprefix opts
find_iaprefix (other_option ∷ opts) = find_iaprefix opts

-- The loop that returns at a status code other than `Success`: `false` there.
unfoldable pub statuses_succeed : List PdOption → Bool
statuses_succeed [] = true
statuses_succeed (ia_prefix _ ∷ opts) = statuses_succeed opts
statuses_succeed (status success ∷ opts) =
    let rest = statuses_succeed opts in if success then rest else false
statuses_succeed (other_option ∷ opts) = statuses_succeed opts

unfoldable pub complement_timer : ℕ → ℕ → ℕ → ℕ
complement_timer timer valid_lifetime divisor =
    if not (timer == 0)
    then timer
    else if valid_lifetime == 2 ^ 32 - 1
    then 2 ^ 32 - 1
    else if divisor == 2
    then valid_lifetime / 2
    else valid_lifetime * 4 / 5 % 2 ^ 32

module _ (I : Ipnet) where
  pub record IaPdInfo : Type 0 where
    pub prefix : I.Ipv6Net
    pub t1 : ℕ
    pub t2 : ℕ
    pub valid_lifetime : ℕ

  unfoldable pub build_ia_prefix : IaPrefix → Option I.Ipv6Net
  build_ia_prefix iaprefix = elim (I.new6 iaprefix.prefix_ip iaprefix.prefix_len) [
    | none ↦ none
    | some n ↦ some (I.trunc6 n)
  ]

  -- From the found prefix on.
  unfoldable pub info_of : IaPd → IaPrefix → Option IaPdInfo
  info_of iapd iaprefix = elim (build_ia_prefix iaprefix) [
    | none ↦ none
    | some prefix ↦ some (record {
      prefix = prefix;
      t1 = complement_timer iapd.t1 iaprefix.valid_lifetime 2;
      t2 = complement_timer iapd.t2 iaprefix.valid_lifetime 5;
      valid_lifetime = iaprefix.valid_lifetime;
    })
  ]

  unfoldable pub info_of_iapd : IaPd → Option IaPdInfo
  info_of_iapd iapd = elim (find_iaprefix iapd.opts) [
    | none ↦ none
    | some iaprefix ↦ if statuses_succeed iapd.opts then info_of iapd iaprefix else none
  ]

  -- With the message's options decoded.
  unfoldable pub info_of_options : List (DhcpOption IaPd) → Option ℕ → Option IaPdInfo
  info_of_options opts iaid = elim (find_iapd opts iaid) [
    | none ↦ none
    | some iapd ↦ info_of_iapd iapd
  ]

  -- `decode` is dhcproto's `Message::decode`, with the options of the message.
  unfoldable pub parse_ia_pd_info :
      (List ℕ → Option (List (DhcpOption IaPd))) → List ℕ → Option ℕ → Option IaPdInfo
  parse_ia_pd_info decode bytes iaid = elim (decode bytes) [
    | none ↦ none
    | some opts ↦ info_of_options opts iaid
  ]

  unfoldable pub parse_ia_pd :
      (List ℕ → Option (List (DhcpOption IaPd))) → List ℕ → Option ℕ → Option I.Ipv6Net
  parse_ia_pd decode bytes iaid = elim (parse_ia_pd_info decode bytes iaid) [
    | none ↦ none
    | some info ↦ some info.prefix
  ]
