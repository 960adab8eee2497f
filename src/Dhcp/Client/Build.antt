-- ===== src/Dhcp/Client/Build.antt =====
-- The messages that src/dhcpv6/client.rs sends. `new_xid` is drawn where a message is built; the
-- builders take it.
use mapecd.Common.{ℕ, List, [], ◌∷◌, Option}
use mapecd.Dhcp.Client.Message.{
  MessageType, solicit, request, renew, rebind, release, MessageOption, client_id, server_id, iapd,
  oro, DhcpMessage, Dhcproto,
}

-- The codes of `OptionCode::IAPD` and `OptionCode::S46ContMape`.
unfoldable pub build_oro : List ℕ
build_oro = 25 ∷ 94 ∷ []

module _ (D : Dhcproto) where
  unfoldable pub encode_msg : DhcpMessage D.Iapd D.Other → Option (List ℕ)
  encode_msg msg = D.encode msg

  -- `Message::new_with_id` and `set_opts`, and the encoding.
  unfoldable pub encode_with :
      MessageType → ℕ → List (MessageOption D.Iapd D.Other) → Option (List ℕ)
  encode_with msg_type xid opts =
      encode_msg (record { msg_type = msg_type; xid = xid; opts = opts })

  unfoldable pub solicit_options : List ℕ → ℕ → List ℕ → List (MessageOption D.Iapd D.Other)
  solicit_options duid iaid codes =
      D.insert (oro codes) (D.insert (iapd (D.new_iapd iaid 0 0)) (D.insert (client_id duid) []))

  unfoldable pub build_solicit : List ℕ → ℕ → ℕ → List ℕ → Option (List ℕ)
  build_solicit duid iaid xid codes = encode_with solicit xid (solicit_options duid iaid codes)

  -- The options of a Request and of a Renew.
  unfoldable pub server_options :
      List ℕ → List ℕ → D.Iapd → List ℕ → List (MessageOption D.Iapd D.Other)
  server_options duid server_duid ia_pd codes =
      D.insert (oro codes)
        (D.insert (iapd ia_pd) (D.insert (server_id server_duid) (D.insert (client_id duid) [])))

  unfoldable pub build_request : List ℕ → List ℕ → ℕ → D.Iapd → List ℕ → Option (List ℕ)
  build_request duid server_duid xid ia_pd_from_adv codes =
      encode_with request xid (server_options duid server_duid ia_pd_from_adv codes)

  unfoldable pub build_renew : List ℕ → List ℕ → ℕ → D.Iapd → List ℕ → Option (List ℕ)
  build_renew duid server_duid xid ia_pd codes =
      encode_with renew xid (server_options duid server_duid ia_pd codes)

  unfoldable pub rebind_options : List ℕ → D.Iapd → List ℕ → List (MessageOption D.Iapd D.Other)
  rebind_options duid ia_pd codes =
      D.insert (oro codes) (D.insert (iapd ia_pd) (D.insert (client_id duid) []))

  unfoldable pub build_rebind : List ℕ → ℕ → D.Iapd → List ℕ → Option (List ℕ)
  build_rebind duid xid ia_pd codes = encode_with rebind xid (rebind_options duid ia_pd codes)

  unfoldable pub release_options : List ℕ → List ℕ → D.Iapd → List (MessageOption D.Iapd D.Other)
  release_options duid server_duid ia_pd =
      D.insert (iapd ia_pd) (D.insert (server_id server_duid) (D.insert (client_id duid) []))

  unfoldable pub build_release : List ℕ → List ℕ → ℕ → D.Iapd → Option (List ℕ)
  build_release duid server_duid xid ia_pd =
      encode_with release xid (release_options duid server_duid ia_pd)
