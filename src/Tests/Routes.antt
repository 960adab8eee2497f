-- ===== src/Tests/Routes.antt =====
-- A run of the theorem on src/netlink/route.rs, on a kernel that is a routing table.
use native.Mathlib.Decide.{ℕ_discrete}
use mapecd.Common.{
  Has, arith, ◌≡◌, ◌≢◌, ◌↔◌, ◌⊎◌, inl, inr, refl, sym, ap, ◌∙◌, List, [], ◌∷◌, none,
}
use mapecd.Daemon.Host.{done}
use mapecd.Netlink.{
  Answer, answered, refused, other_fault, RouteMessage, universe, other_scope, Kernel,
  default_route, default_oifs, has_oif, select_routes, delete_routes, delete_existing,
  get_ipv4_default_routes, del_ipv4_default_route_by_oif, add_ipv4_default_route,
}
use mapecd.Netlink.Selected.{Distinct}
use mapecd.Netlink.Routes.{IsRouting, IsReplaced, add_ipv4_default_route-replaces}

RouteMessage-discrete : Discrete RouteMessage
RouteMessage-discrete = hlevel ℕ_discrete

abbrev dec_has : (msg : RouteMessage) (routes : List RouteMessage) → Dec (Has msg routes)
dec_has msg [] = no (λ h. h)
dec_has msg (first ∷ routes) = elim (RouteMessage-discrete msg first) [
  | yes e ↦ yes (inl e)
  | no ne ↦ elim (dec_has msg routes) [
    | yes m ↦ yes (inr m)
    | no not_in ↦ no (λ h. elim h [ inl e ↦ ne e | inr m ↦ not_in m ])
  ]
]

abbrev keep : {first msg : RouteMessage} → Dec (first ≡ msg) → List RouteMessage → List RouteMessage
keep (yes e) rest = rest
keep {first} (no ne) rest = first ∷ rest

abbrev remove : RouteMessage → List RouteMessage → List RouteMessage
remove msg [] = []
remove msg (first ∷ routes) = keep (RouteMessage-discrete first msg) (remove msg routes)

abbrev IsWithout : RouteMessage → RouteMessage → List RouteMessage → List RouteMessage → Type 0
IsWithout msg other routes rest = Has other rest ↔ (Has other routes × (other ≢ msg))

keep_iff :
    {first msg : RouteMessage} (d : Dec (first ≡ msg)) (other : RouteMessage)
    (routes rest : List RouteMessage)
    → IsWithout msg other routes rest
    → IsWithout msg other (first ∷ routes) (keep d rest)
keep_iff (yes e) other routes rest (to, from) = (
  λ m. (inr (to m).0, (to m).1),
  λ h. elim h.0 [ inl e' ↦ absurd (h.1 (e' ∙ e)) | inr m ↦ from (m, h.1) ],
)
keep_iff (no ne) other routes rest (to, from) = (
  λ h. elim h [ inl e ↦ (inl e, λ e'. ne (sym e ∙ e')) | inr m ↦ (inr (to m).0, (to m).1) ],
  λ h. elim h.0 [ inl e ↦ inl e | inr m ↦ inr (from (m, h.1)) ],
)

remove_iff :
    (msg : RouteMessage) (routes : List RouteMessage) (other : RouteMessage)
    → IsWithout msg other routes (remove msg routes)
remove_iff msg [] other = (λ h. absurd h, λ h. absurd h.0)
remove_iff msg (first ∷ routes) other =
    keep_iff (RouteMessage-discrete first msg) other routes (remove msg routes)
      (remove_iff msg routes other)

keep-Distinct :
    {first msg : RouteMessage} (d : Dec (first ≡ msg)) (rest : List RouteMessage)
    → ¬ Has first rest
    → Distinct rest
    → Distinct (keep d rest)
keep-Distinct (yes e) rest apart distinct = distinct
keep-Distinct (no ne) rest apart distinct = (apart, distinct)

remove-Distinct :
    (msg : RouteMessage) (routes : List RouteMessage)
    → Distinct routes
    → Distinct (remove msg routes)
remove-Distinct msg [] distinct = tt
remove-Distinct msg (first ∷ routes) (apart, distinct) =
    keep-Distinct (RouteMessage-discrete first msg) (remove msg routes)
      (λ m. apart ((remove_iff msg routes first).0 m).0) (remove-Distinct msg routes distinct)

record World : Type 0 where
  routes : List RouteMessage
  distinct : Distinct routes

abbrev del : RouteMessage → World → Answer Unit × World
del msg w = (
  answered tt,
  record { routes = remove msg w.routes; distinct = remove-Distinct msg w.routes w.distinct },
)

abbrev add_if : (msg : RouteMessage) (w : World) → Dec (Has msg w.routes) → Answer Unit × World
add_if msg w (yes m) = (refused other_fault, w)
add_if msg w (no not_in) =
    (answered tt, record { routes = msg ∷ w.routes; distinct = (not_in, w.distinct) })

abbrev add : RouteMessage → World → Answer Unit × World
add msg w = add_if msg w (dec_has msg w.routes)

abbrev kernel : Kernel
kernel = record {
  World = World;
  emit = λ kind value. kind ∷ value;
  to_ne_bytes = λ n. n ∷ [];
  add_address = λ _ _ _ w. (answered tt, w);
  del_address = λ _ _ _ w. (answered tt, w);
  get_routes = λ w. (answered w.routes, w);
  add_route = add;
  del_route = del;
  get_link = λ _ w. (answered none, w);
  new_link = λ _ w. (answered [], w);
  set_up = λ _ w. (answered tt, w);
  del_link = λ _ w. (answered tt, w);
}

added :
    (msg : RouteMessage) (w : World) (d : Dec (Has msg w.routes))
    → (add_if msg w d).0 ≡ answered tt
    → (other : RouteMessage)
    → Has other (add_if msg w d).1.routes ↔ ((other ≡ msg) ⊎ Has other w.routes)
added msg w (yes m) success other = absurd cc
added msg w (no not_in) success other = (λ h. h, λ h. h)

kernel-IsRouting : IsRouting kernel (λ w. w.routes)
kernel-IsRouting = record {
  lists = λ w. refl;
  distinct = λ w. w.distinct;
  deletes = λ msg w m. (refl, λ other. remove_iff msg w.routes other);
  adds = λ msg w success other. added msg w (dec_has msg w.routes) success other;
}

-- A default route by Ethernet, and one to a network of its own.
abbrev routes : List RouteMessage
routes =
    record { destination_prefix_length = 0; scope = universe; oifs = 2 ∷ []; others = [] }
    ∷ record { destination_prefix_length = 24; scope = other_scope 253; oifs = 2 ∷ []; others = [] }
    ∷ []

routes-Distinct : Distinct routes
routes-Distinct = (
  λ h. elim h [
    | inl e ↦ absurd (grind (arith, ap (λ (m : RouteMessage). m.destination_prefix_length) e))
    | inr m ↦ m
  ],
  ((λ m. m), tt),
)

abbrev before : World
before = record { routes = routes; distinct = routes-Distinct }

replaced : (add_ipv4_default_route kernel 10 before).0 ≡ done tt
unfolding add_ipv4_default_route get_ipv4_default_routes delete_existing
    del_ipv4_default_route_by_oif delete_routes select_routes has_oif default_oifs
    RouteMessage-discrete ℕ_discrete
replaced = refl

add_ipv4_default_route-replaces_example :
    Has (default_route 10) (add_ipv4_default_route kernel 10 before).1.routes ↔ (
      (default_route 10 ≡ default_route 10)
      ⊎ (Has (default_route 10) routes × ¬ IsReplaced routes (default_route 10)))
add_ipv4_default_route-replaces_example =
    add_ipv4_default_route-replaces kernel-IsRouting 10 before replaced (default_route 10)
