-- ===== src/Dhcp/Client/Message.antt =====
-- The messages of dhcproto, as far as src/dhcpv6/client.rs tells them apart, and the readers of it
-- that take a message: `parse_advertise`, `parse_reply`, `extract_server_duid` and `extract_ia_pd`.
-- A transaction id of three bytes is its number.
use mapecd.Common.{
  ℕ, ◌==◌, not, if◌then◌else◌, Bool, true, false, List, [], ◌∷◌, map, Option, none, some,
}
use mapecd.Dhcp.Rules.{DhcpOption, ia_pd, unknown, other}
use mapecd.Dhcp.Prefix.{IaPd}

pub data MessageType : Type 0 where
  solicit : MessageType
  advertise : MessageType
  request : MessageType
  renew : MessageType
  rebind : MessageType
  reply : MessageType
  release : MessageType
  other_type : MessageType

unfoldable pub is_advertise : MessageType → Bool
is_advertise advertise = true
is_advertise _ = false

unfoldable pub is_reply : MessageType → Bool
is_reply reply = true
is_reply _ = false

-- The options of a message, over the type of dhcproto's `IAPD` and that of all other content;
-- `status_code` tells whether the status is `Success`.
pub data MessageOption (Iapd Other : Type 0) : Type 0 where
  client_id : List ℕ → MessageOption Iapd Other
  server_id : List ℕ → MessageOption Iapd Other
  iapd : Iapd → MessageOption Iapd Other
  oro : List ℕ → MessageOption Iapd Other
  status_code : Bool → MessageOption Iapd Other
  server_unicast : ℕ → MessageOption Iapd Other
  unknown_option : ℕ → List ℕ → MessageOption Iapd Other
  other_option : Other → MessageOption Iapd Other

pub record DhcpMessage (Iapd Other : Type 0) : Type 0 where
  pub msg_type : MessageType
  pub xid : ℕ
  pub opts : List (MessageOption Iapd Other)

-- The crate dhcproto: `IAPD` with no options in it, what the parser reads of an `IAPD`, and
-- `DhcpOptions::insert`, `Message::encode` and `Message::decode`.
pub record Dhcproto : Type 1 where
  pub Iapd : Type 0
  pub Other : Type 0
  pub new_iapd : ℕ → ℕ → ℕ → Iapd
  pub view : Iapd → IaPd
  pub insert :
      MessageOption Iapd Other → List (MessageOption Iapd Other) → List (MessageOption Iapd Other)
  pub encode : DhcpMessage Iapd Other → Option (List ℕ)
  pub decode : List ℕ → Option (DhcpMessage Iapd Other)

module _ (D : Dhcproto) where
  abbrev pub Option6 : Type 0
  Option6 = MessageOption D.Iapd D.Other

  abbrev pub Message6 : Type 0
  Message6 = DhcpMessage D.Iapd D.Other

  -- `opts.get(OptionCode::StatusCode)`, and the same of the others: the first option of the kind.
  unfoldable pub get_status : List Option6 → Option Bool
  get_status [] = none
  get_status (status_code success ∷ opts) = some success
  get_status (_ ∷ opts) = get_status opts

  unfoldable pub get_server_id : List Option6 → Option (List ℕ)
  get_server_id [] = none
  get_server_id (server_id duid ∷ opts) = some duid
  get_server_id (_ ∷ opts) = get_server_id opts

  unfoldable pub get_iapd : List Option6 → Option D.Iapd
  get_iapd [] = none
  get_iapd (iapd content ∷ opts) = some content
  get_iapd (_ ∷ opts) = get_iapd opts

  unfoldable pub get_server_unicast : List Option6 → Option ℕ
  get_server_unicast [] = none
  get_server_unicast (server_unicast addr ∷ opts) = some addr
  get_server_unicast (_ ∷ opts) = get_server_unicast opts

  -- What src/dhcpv6/parser.rs tells apart of an option.
  unfoldable pub option_of : Option6 → DhcpOption IaPd
  option_of (iapd content) = ia_pd (D.view content)
  option_of (unknown_option code payload) = unknown code payload
  option_of _ = other

  -- `Message::decode` as the parser uses it.
  unfoldable pub decode_options : List ℕ → Option (List (DhcpOption IaPd))
  decode_options bytes = elim (D.decode bytes) [
    | none ↦ none
    | some msg ↦ some (map option_of msg.opts)
  ]

  -- A status code at the top level is not a failure.
  unfoldable pub status_passes : Option Bool → Bool
  status_passes none = true
  status_passes (some success) = success

  unfoldable pub accept_advertise : ℕ → Message6 → Option Message6
  accept_advertise xid msg =
      if not (is_advertise msg.msg_type)
      then none
      else if not (msg.xid == xid)
      then none
      else if not (status_passes (get_status msg.opts))
      then none
      else some msg

  unfoldable pub parse_advertise : List ℕ → ℕ → Option Message6
  parse_advertise bytes xid = elim (D.decode bytes) [
    | none ↦ none
    | some msg ↦ accept_advertise xid msg
  ]

  unfoldable pub accept_reply : ℕ → Message6 → Option Message6
  accept_reply xid msg =
      if not (is_reply msg.msg_type) then none else if not (msg.xid == xid) then none else some msg

  unfoldable pub parse_reply : List ℕ → ℕ → Option Message6
  parse_reply bytes xid = elim (D.decode bytes) [ none ↦ none | some msg ↦ accept_reply xid msg ]

  unfoldable pub extract_server_duid : Message6 → Option (List ℕ)
  extract_server_duid msg = get_server_id msg.opts

  unfoldable pub extract_ia_pd : Message6 → Option D.Iapd
  extract_ia_pd msg = get_iapd msg.opts
