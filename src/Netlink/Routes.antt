-- ===== src/Netlink/Routes.antt =====
-- What `add_ipv4_default_route` (src/netlink/route.rs) leaves in the routing table.
use mapecd.Common.{Has, ℕ, inl, inr, List, [], ◌∷◌, ◌≡◌, ◌≢◌, ◌↔◌, refl, sym, ◌∙◌, ap, subst, ◌⊎◌}
use mapecd.Daemon.Host.{done, failed}
use mapecd.Netlink.Selected.{
  Distinct, LeavesBy, LeavesByOne, IsUniversal, default_oifs_iff, select_iff, select-Distinct,
}
use mapecd.Netlink.{
  Answer, answered, refused, Call, reply_of, request, pure, ◌>>=◌, RouteMessage, Kernel,
  default_route, default_oifs, select_routes, delete_routes, del_ipv4_default_route_by_oif,
  delete_existing, get_ipv4_default_routes, add_ipv4_default_route,
}

-- Documented behaviour of the kernel: what a request does to the routing table.
pub record IsRouting (K : Kernel) (table : K.World → List RouteMessage) : Type 0 where
  pub lists : (w : K.World) → K.get_routes w ≡ (answered (table w), w)
  pub distinct : (w : K.World) → Distinct (table w)
  pub deletes :
      (msg : RouteMessage) (w : K.World)
      → Has msg (table w)
      → ((K.del_route msg w).0 ≡ answered tt)
        × ((other : RouteMessage)
            → Has other (table (K.del_route msg w).1) ↔ (Has other (table w) × (other ≢ msg)))
  pub adds :
      (msg : RouteMessage) (w : K.World)
      → (K.add_route msg w).0 ≡ answered tt
      → (other : RouteMessage)
      → Has other (table (K.add_route msg w).1) ↔ ((other ≡ msg) ⊎ Has other (table w))

-- A default route out of an interface by which a default route of universal scope leaves.
abbrev pub IsReplaced : List RouteMessage → RouteMessage → Type 0
IsReplaced routes msg =
    (oif : ℕ) × ((other : RouteMessage) × Has other routes × IsUniversal oif other)
    × LeavesBy oif msg

request_done :
    {World A : Type 0} (f : World → Answer A × World) (w : World) (a : A)
    → (f w).0 ≡ answered a
    → request f w ≡ (done a, (f w).1)
request_done f w a e = rw e refl

reply_done : (answer : Answer Unit) → reply_of answer ≡ done tt → answer ≡ answered tt
reply_done (answered _) h = refl
reply_done (refused fault) h = absurd cc

bind_done :
    {World A B : Type 0} (m : Call World A) (f : A → Call World B) (w after : World) (a : A)
    → m w ≡ (done a, after)
    → (m >>= f) w ≡ f a after
bind_done m f w after a e =
    ap (λ p. elim p.0 [ done b ↦ f b p.1 | failed fault ↦ (failed fault, p.1) ]) e

module _ {K : Kernel} {table : K.World → List RouteMessage} (routing : IsRouting K table) where
  delete_routes_lem :
      (to_delete : List RouteMessage) (w : K.World)
      → Distinct to_delete
      → ((msg : RouteMessage) → Has msg to_delete → Has msg (table w))
      → (msg : RouteMessage)
      → Has msg (table (delete_routes K to_delete w).1) ↔ (Has msg (table w) × ¬ Has msg to_delete)
  unfolding delete_routes
  delete_routes_lem [] w distinct listed msg = (λ m. (m, λ h. h), λ h. h.0)
  delete_routes_lem (first ∷ to_delete) w (apart, distinct) listed msg =
      let (answer, deleted) = routing.deletes first w (listed first (inl refl)) in
      let after = (K.del_route first w).1 in
      let listed' : (m : RouteMessage) → Has m to_delete → Has m (table after) =
        λ m h. (deleted m).1 (listed m (inr h), λ e. apart (subst (λ x. Has x to_delete) e h)) in
      let (to, from) = delete_routes_lem to_delete after distinct listed' msg in
      let step =
        bind_done (request (K.del_route first)) (λ _. delete_routes K to_delete) w after tt
          (request_done (K.del_route first) w tt answer) in
      rw step (
        λ m.
            let (kept, not_in) = to m in
            let (before, ne) = (deleted msg).0 kept in
            (before, λ h. elim h [ inl e ↦ ne e | inr h' ↦ not_in h' ]),
        λ h. from ((deleted msg).1 (h.0, λ e. h.1 (inl e)), λ m. h.1 (inr m)),
      )

  listed_routes : (w : K.World) → request K.get_routes w ≡ (done (table w), w)
  listed_routes w = ap (λ p. (reply_of p.0, p.1)) (routing.lists w)

  by_oif_step :
      (oif : ℕ) (w : K.World)
      → del_ipv4_default_route_by_oif K oif w ≡ delete_routes K (select_routes oif (table w)) w
  unfolding del_ipv4_default_route_by_oif
  by_oif_step oif w =
      bind_done (request K.get_routes) (λ routes. delete_routes K (select_routes oif routes)) w w
        (table w) (listed_routes w)

  add_step :
      (oif : ℕ) (w : K.World)
      → add_ipv4_default_route K oif w
        ≡ request (K.add_route (default_route oif)) (delete_existing K (default_oifs (table w)) w)
  unfolding add_ipv4_default_route get_ipv4_default_routes
  add_step oif w =
      bind_done (get_ipv4_default_routes K)
        (λ existing v. request (K.add_route (default_route oif)) (delete_existing K existing v)) w w
        (default_oifs (table w))
        (bind_done (request K.get_routes) (λ routes. pure (default_oifs routes)) w w (table w)
          (listed_routes w))

  del_by_oif_lem :
      (oif : ℕ) (w : K.World) (msg : RouteMessage)
      → Has msg (table (del_ipv4_default_route_by_oif K oif w).1)
        ↔ (Has msg (table w) × ¬ LeavesBy oif msg)
  del_by_oif_lem oif w msg =
      let (to, from) =
        delete_routes_lem (select_routes oif (table w)) w
          (select-Distinct oif (table w) (routing.distinct w))
          (λ m h. ((select_iff oif (table w) m).0 h).0) msg in
      let (selected, select) = select_iff oif (table w) msg in
      let step = by_oif_step oif w in
      rw step (
        λ m. ((to m).0, λ leaves. (to m).1 (select ((to m).0, leaves))),
        λ h. from (h.0, λ m. h.1 (selected m).1),
      )

  delete_existing_lem :
      (existing : List ℕ) (w : K.World) (msg : RouteMessage)
      → Has msg (table (delete_existing K existing w))
        ↔ (Has msg (table w) × ¬ LeavesByOne existing msg)
  unfolding delete_existing
  delete_existing_lem [] w msg = (λ m. (m, λ h. h.1), λ h. h.0)
  delete_existing_lem (oif ∷ existing) w msg =
      let (to, from) = delete_existing_lem existing (del_ipv4_default_route_by_oif K oif w).1 msg in
      let (kept, keep) = del_by_oif_lem oif w msg in
      (
        λ m.
            let (before, not_first) = kept (to m).0 in
            (
              before,
              λ h. elim h.1 [
                | inl e ↦ not_first (subst (λ o. LeavesBy o msg) e h.2)
                | inr h' ↦ (to m).1 (h.0, h', h.2)
              ],
            ),
        λ h. from (
          keep (h.0, λ leaves. h.1 (oif, inl refl, leaves)),
          λ one. h.1 (one.0, inr one.1, one.2),
        ),
      )

  -- What a default route replaces: where the kernel lists its table, deletes what it lists and adds
  -- what it accepts, and `add_ipv4_default_route` succeeds, the table then has the default route out of
  -- the interface and the routes that it had before, without those default routes of any scope that
  -- leave by an interface of a default route of universal scope. A default route with no interface of
  -- its own, as one of several paths, and every route that is not a default route stay.
  pub add_ipv4_default_route-replaces :
      (oif : ℕ) (w : K.World)
      → (add_ipv4_default_route K oif w).0 ≡ done tt
      → (msg : RouteMessage)
      → Has msg (table (add_ipv4_default_route K oif w).1)
        ↔ ((msg ≡ default_route oif) ⊎ (Has msg (table w) × ¬ IsReplaced (table w) msg))
  add_ipv4_default_route-replaces oif w success msg =
      let existing = default_oifs (table w) in
      let cleared = delete_existing K existing w in
      let accepted =
        reply_done (K.add_route (default_route oif) cleared).0
          (sym (ap (λ p. p.0) (add_step oif w)) ∙ success) in
      let (added, add) = routing.adds (default_route oif) cleared accepted msg in
      let (kept, keep) = delete_existing_lem existing w msg in
      let listed : (one : IsReplaced (table w) msg) → Has one.0 existing =
        λ one. (default_oifs_iff (table w) one.0).1 one.1 in
      let replaced =
        λ (one : LeavesByOne existing msg). (default_oifs_iff (table w) one.0).0 one.1 in
      let step = add_step oif w in
      rw step (
        λ m. elim (added m) [
          | inl e ↦ inl e
          | inr m' ↦
              let (there, stays) = kept m' in inr (there, λ one. stays (one.0, listed one, one.2))
        ],
        λ h. add (elim h [
          | inl e ↦ inl e
          | inr m ↦ inr (keep (m.0, λ one. m.1 (one.0, replaced one, one.2)))
        ]),
      )
