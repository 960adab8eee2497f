-- ===== src/Dhcp/Rules.antt =====
-- The MAP rules of src/dhcpv6/parser.rs: `parse_s46_rule`, `parse_s46_br`, `parse_s46_cont_mape` and
-- `parse_mape_container`. What is left of the payload stands for the position in it.
pub mod Wire
use mapecd.Common.{
  ℕ, zero, suc, ◌+◌, ◌*◌, ◌/◌, ◌^◌, bit_and, ◌==◌, ltb, leb, not, ◌&&◌, if◌then◌else◌, Bool, true,
  false, List, [], ◌∷◌, ◌++◌, length, take, drop, Option, none, some, Res, ok, err, panic, ◌>>=◌,
}
use mapecd.Map.Net.{Ipnet}
use mapecd.Map.Rule.{
  MapeError, invalid_config, missing_br_address, PortParams, default_port_params, MapRule,
}
use mapecd.Dhcp.Options.{iter_opts}

abbrev pub opt_s46_rule : ℕ
opt_s46_rule = 89

abbrev pub opt_s46_br : ℕ
opt_s46_br = 90

abbrev pub opt_s46_portparams : ℕ
opt_s46_portparams = 93

-- An address of `n` bytes, of which the ones that are missing at the end are 0.
unfoldable pub address_of : ℕ → List ℕ → ℕ
address_of zero bytes = 0
address_of (suc n) [] = 0
address_of (suc n) (b ∷ bytes) = b * 256 ^ n + address_of n bytes

unfoldable pub parse_s46_br : List ℕ → Option ℕ
parse_s46_br bytes = if ltb (length bytes) 16 then none else some (address_of 16 (take 16 bytes))

-- The closure of `parse_s46_rule`: its `data.len() >= 4` is a match on four bytes.
unfoldable pub take_port_params : ℕ → List ℕ → PortParams → PortParams
take_port_params code (a ∷ k ∷ p ∷ p' ∷ rest) port_params =
    if code == opt_s46_portparams then record { psid_offset = a; psid_length = k } else port_params
take_port_params code _ port_params = port_params

-- `(prefix_len + 7) / 8`
unfoldable pub bytes_len : ℕ → ℕ
bytes_len prefix_len = (prefix_len + 7) / 8

-- The variables of the closure of `parse_s46_cont_mape`.
pub record Container : Type 0 where
  pub br_addr : Option ℕ
  pub rule_payloads : List (List ℕ)

-- `if br_addr.is_none()`: the first address that can be read stays.
unfoldable pub take_br : List ℕ → Container → Container
take_br bytes c = elim c.br_addr [
  | some _ ↦ c
  | none ↦ elim (parse_s46_br bytes) [ none ↦ c | some addr ↦ record c { br_addr = some addr } ]
]

unfoldable pub take_option : ℕ → List ℕ → Container → Container
take_option code bytes c =
    if code == opt_s46_br
    then take_br bytes c
    else if code == opt_s46_rule
    then record c { rule_payloads = c.rule_payloads ++ bytes ∷ [] }
    else c

-- The options of a decoded message, as far as the program tells them apart.
pub data DhcpOption (Iapd : Type 0) : Type 0 where
  ia_pd : Iapd → DhcpOption Iapd
  unknown : ℕ → List ℕ → DhcpOption Iapd
  other : DhcpOption Iapd

abbrev pub s46_cont_mape : ℕ
s46_cont_mape = 94

-- The payload of the first option 94.
unfoldable pub find_container : {Iapd : Type 0} → List (DhcpOption Iapd) → Option (List ℕ)
find_container [] = none
find_container (unknown code payload ∷ options) =
    let rest = find_container options in if code == s46_cont_mape then some payload else rest
find_container (ia_pd _ ∷ options) = find_container options
find_container (other ∷ options) = find_container options

module _ (I : Ipnet) where
  -- `Ipv4Net::new(…)`, its error, and `trunc`; and the same of IPv6.
  unfoldable pub net4_of : ℕ → ℕ → Res MapeError I.Ipv4Net
  net4_of addr len = elim (I.new4 addr len) [
    | none ↦ err invalid_config
    | some net ↦ ok (I.trunc4 net)
  ]

  unfoldable pub net6_of : ℕ → ℕ → Res MapeError I.Ipv6Net
  net6_of addr len = elim (I.new6 addr len) [
    | none ↦ err invalid_config
    | some net ↦ ok (I.trunc6 net)
  ]

  -- From the IPv6 prefix on.
  unfoldable pub parse_rule_ipv6 : ℕ → ℕ → I.Ipv4Net → ℕ → ℕ → List ℕ → Res MapeError (MapRule I)
  parse_rule_ipv6 flags ea_length ipv4_prefix br_addr prefix6_len payload =
      if ltb 128 prefix6_len
      then err invalid_config
      else if ltb (length payload) (bytes_len prefix6_len)
      then err invalid_config
      else (do
        ipv6_prefix ← net6_of (address_of 16 (take (bytes_len prefix6_len) payload)) prefix6_len
        ok (record {
          ipv6_prefix = ipv6_prefix;
          ipv4_prefix = ipv4_prefix;
          ea_length = ea_length;
          is_fmr = not (bit_and flags 1 == 0);
          br_address = br_addr;
          port_params =
              iter_opts take_port_params (drop (bytes_len prefix6_len) payload) default_port_params;
        }))

  -- From the byte of the IPv6 prefix length on.
  unfoldable pub parse_rule_prefix6 : ℕ → ℕ → I.Ipv4Net → ℕ → List ℕ → Res MapeError (MapRule I)
  parse_rule_prefix6 flags ea_length ipv4_prefix br_addr [] = err invalid_config
  parse_rule_prefix6 flags ea_length ipv4_prefix br_addr (prefix6_len ∷ payload) =
      parse_rule_ipv6 flags ea_length ipv4_prefix br_addr prefix6_len payload

  -- From the IPv4 prefix on.
  unfoldable pub parse_rule_ipv4 : ℕ → ℕ → ℕ → ℕ → List ℕ → Res MapeError (MapRule I)
  parse_rule_ipv4 flags ea_length br_addr prefix4_len payload =
      if ltb 32 prefix4_len
      then err invalid_config
      else if ltb (length payload) (bytes_len prefix4_len)
      then err invalid_config
      else (do
        ipv4_prefix ← net4_of (address_of 4 (take (bytes_len prefix4_len) payload)) prefix4_len
        parse_rule_prefix6 flags ea_length ipv4_prefix br_addr
            (drop (bytes_len prefix4_len) payload))

  unfoldable pub parse_s46_rule : List ℕ → ℕ → Res MapeError (MapRule I)
  parse_s46_rule (flags ∷ ea_length ∷ prefix4_len ∷ payload) br_addr =
      parse_rule_ipv4 flags ea_length br_addr prefix4_len payload
  parse_s46_rule _ br_addr = err invalid_config

  -- `for rp in rule_payloads`, which ends at the first error.
  unfoldable pub parse_rules : List (List ℕ) → ℕ → Res MapeError (List (MapRule I))
  parse_rules [] br = ok []
  parse_rules (payload ∷ payloads) br = do
    rule ← parse_s46_rule payload br
    rules ← parse_rules payloads br
    ok (rule ∷ rules)

  -- What follows the scan of the container.
  unfoldable pub rules_of_container : Container → Res MapeError (List (MapRule I))
  rules_of_container c = elim c.br_addr [
    | none ↦ err missing_br_address
    | some br ↦ parse_rules c.rule_payloads br
  ]

  unfoldable pub parse_s46_cont_mape : List ℕ → Res MapeError (List (MapRule I))
  parse_s46_cont_mape payload =
      rules_of_container
        (iter_opts take_option payload (record { br_addr = none; rule_payloads = [] }))

  -- `decode` is dhcproto's `Message::decode`, with the options of the message.
  unfoldable pub parse_mape_container :
      {Iapd : Type 0}
      → (List ℕ → Option (List (DhcpOption Iapd)))
      → List ℕ
      → Res MapeError (Option (List (MapRule I)))
  parse_mape_container decode bytes = elim (decode bytes) [
    | none ↦ ok none
    | some options ↦ elim (find_container options) [
      | none ↦ ok none
      | some payload ↦ (do rules ← parse_s46_cont_mape payload; ok (some rules))
    ]
  ]
