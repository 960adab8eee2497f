-- ===== src/Netlink.antt =====
-- src/netlink: addr.rs, route.rs and tunnel.rs over the crate rtnetlink, the parameter `Kernel`.
pub mod Selected
pub mod Routes
pub mod Tunnel
use mapecd.Common.{
  ℕ, ◌^◌, ◌==◌, ◌&&◌, ◌++◌, Bool, true, false, if◌then◌else◌, List, [], ◌∷◌, Option, none, some,
}
use mapecd.Map.Rule.{MapeError, netlink_error}
use mapecd.Daemon.Host.{Text, Reply, done, failed}

-- What the program tells apart in an error of rtnetlink: whether its text has "No such device" or
-- "(os error 19)".
pub data Fault : Type 0 where
  no_such_device : Fault
  other_fault : Fault

pub data Answer (A : Type 0) : Type 0 where
  answered : A → Answer A
  refused : Fault → Answer A

-- `RouteScope::Universe`, and the others.
pub data RouteScope : Type 0 where
  universe : RouteScope
  other_scope : ℕ → RouteScope

-- The parts of a message that are read, and the others: protocol, kind, and what else the kernel has,
-- as a gateway and a metric.
pub record RouteMessage : Type 0 where
  pub destination_prefix_length : ℕ
  pub scope : RouteScope
  pub oifs : List ℕ
  pub others : List ℕ

pub record LinkMessage : Type 0 where
  pub index : ℕ
  pub mtu : Option ℕ

-- `LinkMessage` of `create_ip6tnl`, of kind "ip6tnl".
pub record NewLink : Type 0 where
  pub if_name : Text
  pub mtu : ℕ
  pub info_data : List ℕ

-- The payload of a response.
pub data Payload : Type 0 where
  error_payload : Payload
  other_payload : Payload

-- rtnetlink: each request takes the world and returns it.
pub record Kernel : Type 1 where
  pub World : Type 0
  -- The bytes that a `DefaultNla` emits, of its kind and its value.
  pub emit : ℕ → List ℕ → List ℕ
  -- `u32::to_ne_bytes`
  pub to_ne_bytes : ℕ → List ℕ
  -- The address with its family's width, on a link.
  pub add_address : ℕ → ℕ → ℕ → World → Answer Unit × World
  pub del_address : ℕ → ℕ → ℕ → World → Answer Unit × World
  pub get_routes : World → Answer (List RouteMessage) × World
  pub add_route : RouteMessage → World → Answer Unit × World
  pub del_route : RouteMessage → World → Answer Unit × World
  pub get_link : Text → World → Answer (Option LinkMessage) × World
  pub new_link : NewLink → World → Answer (List Payload) × World
  pub set_up : ℕ → World → Answer Unit × World
  pub del_link : ℕ → World → Answer Unit × World

abbrev pub reply_of : {A : Type 0} → Answer A → Reply A
reply_of (answered a) = done a
reply_of (refused fault) = failed netlink_error

-- The `match` on the answer.
unfoldable pub gone_is_done : Answer Unit → Reply Unit
gone_is_done (answered _) = done tt
gone_is_done (refused no_such_device) = done tt
gone_is_done (refused other_fault) = failed netlink_error

abbrev pub is_universe : RouteScope → Bool
is_universe universe = true
is_universe (other_scope _) = false

-- The loop over the routes.
unfoldable pub default_oifs : List RouteMessage → List ℕ
default_oifs [] = []
default_oifs (msg ∷ routes) =
    if msg.destination_prefix_length == 0 && is_universe msg.scope
    then msg.oifs ++ default_oifs routes
    else default_oifs routes

unfoldable pub has_oif : ℕ → List ℕ → Bool
has_oif oif [] = false
has_oif oif (o ∷ oifs) = if o == oif then true else has_oif oif oifs

-- The loop that fills `to_delete`.
unfoldable pub select_routes : ℕ → List RouteMessage → List RouteMessage
select_routes oif [] = []
select_routes oif (msg ∷ routes) =
    if msg.destination_prefix_length == 0 && has_oif oif msg.oifs
    then msg ∷ select_routes oif routes
    else select_routes oif routes

abbrev pub rtprot_static : ℕ
rtprot_static = 4

abbrev pub rtn_unicast : ℕ
rtn_unicast = 1

abbrev pub default_route : ℕ → RouteMessage
default_route oif = record {
  destination_prefix_length = 0;
  scope = universe;
  oifs = oif ∷ [];
  others = rtprot_static ∷ rtn_unicast ∷ [];
}

abbrev pub Call : Type 0 → Type 0 → Type 0
Call World A = World → Reply A × World

module _ {World : Type 0} where
  infixl 5 ◌>>=◌
  abbrev pub ◌>>=◌ : {A B : Type 0} → Call World A → (A → Call World B) → Call World B
  ◌>>=◌ m f w =
      let (reply, after) = m w in elim reply [ done a ↦ f a after | failed e ↦ (failed e, after) ]

  module _ {A : Type 0} where
    abbrev pub pure : A → Call World A
    pure a w = (done a, w)

    abbrev pub fail : Call World A
    fail w = (failed netlink_error, w)

    -- `map_err` to a `NetlinkError`
    abbrev pub request : (World → Answer A × World) → Call World A
    request f w = let (answer, after) = f w in (reply_of answer, after)

module _ (K : Kernel) where
  unfoldable pub add_ipv6_addr : ℕ → ℕ → Call K.World Unit
  add_ipv6_addr ifindex addr = request (K.add_address ifindex addr 128)

  unfoldable pub del_ipv6_addr : ℕ → ℕ → Call K.World Unit
  del_ipv6_addr ifindex addr = request (K.del_address ifindex addr 128)

  unfoldable pub add_ipv4_addr : ℕ → ℕ → Call K.World Unit
  add_ipv4_addr ifindex addr = request (K.add_address ifindex addr 32)

  unfoldable pub del_ipv4_addr : ℕ → ℕ → Call K.World Unit
  del_ipv4_addr ifindex addr w =
      let (answer, after) = K.del_address ifindex addr 32 w in (gone_is_done answer, after)

  unfoldable pub get_ipv4_default_routes : Call K.World (List ℕ)
  get_ipv4_default_routes = do routes ← request K.get_routes; pure (default_oifs routes)

  unfoldable pub delete_routes : List RouteMessage → Call K.World Unit
  delete_routes [] = pure tt
  delete_routes (msg ∷ to_delete) = do _ ← request (K.del_route msg); delete_routes to_delete

  unfoldable pub del_ipv4_default_route_by_oif : ℕ → Call K.World Unit
  del_ipv4_default_route_by_oif oif = do
    routes ← request K.get_routes
    delete_routes (select_routes oif routes)

  -- The loop over the existing routes, which goes on where one fails.
  unfoldable pub delete_existing : List ℕ → K.World → K.World
  delete_existing [] w = w
  delete_existing (oif ∷ existing) w =
      let (_, after) = del_ipv4_default_route_by_oif oif w in delete_existing existing after

  unfoldable pub add_ipv4_default_route : ℕ → Call K.World Unit
  add_ipv4_default_route oif = do
    existing ← get_ipv4_default_routes
    λ w. request (K.add_route (default_route oif)) (delete_existing existing w)

  -- The first answer to a request by name.
  unfoldable pub find_link_by_name : Text → Call K.World LinkMessage
  find_link_by_name name = do
    link ← request (K.get_link name)
    elim link [ none ↦ fail | some msg ↦ pure msg ]

  unfoldable pub get_link_index : Text → Call K.World ℕ
  get_link_index name = do msg ← find_link_by_name name; pure msg.index

  unfoldable pub get_link_mtu : Text → Call K.World ℕ
  get_link_mtu name = do
    msg ← find_link_by_name name
    elim msg.mtu [ none ↦ fail | some mtu ↦ pure mtu ]

  unfoldable pub delete_link : ℕ → Call K.World Unit
  delete_link ifindex = request (K.del_link ifindex)
