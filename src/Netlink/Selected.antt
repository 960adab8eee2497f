-- ===== src/Netlink/Selected.antt =====
-- Which routes `del_ipv4_default_route_by_oif` (src/netlink/route.rs) takes.
use mapecd.Common.{
  Has, ℕ, ◌==◌, ◌&&◌, ◌++◌, ==_iff, Bool, true, false, Bool-cases, inl, inr, List, [], ◌∷◌, ◌≡◌,
  ◌≢◌, ◌↔◌, refl, sym, subst, arith, ◌⊎◌,
}
use mapecd.Netlink.{RouteMessage, has_oif, select_routes, default_oifs, is_universe}

abbrev pub Distinct : List RouteMessage → Type 0
Distinct [] = Unit
Distinct (msg ∷ routes) = ¬ Has msg routes × Distinct routes

-- A default route out of an interface.
abbrev pub LeavesBy : ℕ → RouteMessage → Type 0
LeavesBy oif msg = (msg.destination_prefix_length ≡ 0) × Has oif msg.oifs

-- A default route out of one of the interfaces.
abbrev pub LeavesByOne : List ℕ → RouteMessage → Type 0
LeavesByOne existing msg = (oif : ℕ) × Has oif existing × LeavesBy oif msg

same_or_not : (x y : ℕ) → ((x == y) ≡ true) × (y ≡ x) ⊎ ((x == y) ≡ false) × (y ≢ x)
same_or_not x y = elim (Bool-cases (x == y)) [
  | inl same ↦ inl (same, sym ((==_iff x y).0 same))
  | inr differ ↦ inr (differ, λ e. absurd (ground arith))
]

has_oif_iff : (oif : ℕ) (oifs : List ℕ) → (has_oif oif oifs ≡ true) ↔ Has oif oifs
unfolding has_oif
has_oif_iff oif [] = (λ h. absurd (ground arith), λ h. absurd h)
has_oif_iff oif (o ∷ oifs) = elim (same_or_not o oif) [
  | inl (same, e) ↦ rw same (λ _. inl e, λ _. refl)
  | inr (differ, ne) ↦
      let (to, from) = has_oif_iff oif oifs in
      rw differ (λ h. inr (to h), λ h. elim h [ inl e ↦ absurd (ne e) | inr m ↦ from m ])
]

-- The test on a message, and what it says.
leaves_iff :
    (oif : ℕ) (msg : RouteMessage)
    → ((msg.destination_prefix_length == 0 && has_oif oif msg.oifs) ≡ true) ↔ LeavesBy oif msg
leaves_iff oif msg =
    let (to, from) = has_oif_iff oif msg.oifs in
    elim (same_or_not msg.destination_prefix_length 0) [
      | inl (same, e) ↦ rw same (λ h. (sym e, to h), λ leaves. from leaves.1)
      | inr (differ, ne) ↦
          rw differ (λ h. absurd (ground arith), λ leaves. absurd (ne (sym leaves.0)))
    ]

pub select_iff :
    (oif : ℕ) (routes : List RouteMessage) (msg : RouteMessage)
    → Has msg (select_routes oif routes) ↔ (Has msg routes × LeavesBy oif msg)
unfolding select_routes
select_iff oif [] msg = (λ h. absurd h, λ h. absurd h.0)
select_iff oif (first ∷ routes) msg =
    let (to, from) = select_iff oif routes msg in
    elim (Bool-cases (first.destination_prefix_length == 0 && has_oif oif first.oifs)) [
      | inl taken ↦
          let leaves = (leaves_iff oif first).0 taken in
          rw taken (
            λ h. elim h [
              | inl e ↦ (inl e, subst (λ m. LeavesBy oif m) (sym e) leaves)
              | inr m ↦ (inr (to m).0, (to m).1)
            ],
            λ h. elim h.0 [ inl e ↦ inl e | inr m ↦ inr (from (m, h.1)) ],
          )
      | inr left ↦ rw left (
        λ m. (inr (to m).0, (to m).1),
        λ h. elim h.0 [
          | inl e ↦
              let leaves = subst (λ m. LeavesBy oif m) e h.1 in
              let passed = (leaves_iff oif first).1 leaves in absurd (ground arith)
          | inr m ↦ from (m, h.1)
        ],
      )
    ]

pub select-Distinct :
    (oif : ℕ) (routes : List RouteMessage) → Distinct routes → Distinct (select_routes oif routes)
unfolding select_routes
select-Distinct oif [] distinct = tt
select-Distinct oif (msg ∷ routes) (apart, distinct) =
    elim (Bool-cases (msg.destination_prefix_length == 0 && has_oif oif msg.oifs)) [
      | inl taken ↦
          rw taken
            ((λ m. apart ((select_iff oif routes msg).0 m).0), select-Distinct oif routes distinct)
      | inr left ↦ rw left (select-Distinct oif routes distinct)
    ]

-- A message of universal scope that is a default route out of the interface.
abbrev pub IsUniversal : ℕ → RouteMessage → Type 0
IsUniversal oif msg = (is_universe msg.scope ≡ true) × LeavesBy oif msg

and_parts : (n : ℕ) (b : Bool) → (n == 0 && b) ≡ true → (n ≡ 0) × (b ≡ true)
and_parts n b h = ground arith

not_both : (n : ℕ) (b : Bool) → n ≡ 0 → b ≡ true → ¬ ((n == 0 && b) ≡ false)
not_both n b zero universal h = ground arith

Has-append : (x : ℕ) (xs ys : List ℕ) → Has x (xs ++ ys) ↔ (Has x xs ⊎ Has x ys)
Has-append x [] ys = (λ h. inr h, λ h. elim h [ inl none_there ↦ absurd none_there | inr m ↦ m ])
Has-append x (y ∷ xs) ys =
    let (to, from) = Has-append x xs ys in
    (
      λ h. elim h [
        | inl e ↦ inl (inl e)
        | inr m ↦ elim (to m) [ inl left ↦ inl (inr left) | inr right ↦ inr right ]
      ],
      λ h. elim h [
        | inl left ↦ elim left [ inl e ↦ inl e | inr m ↦ inr (from (inl m)) ]
        | inr right ↦ inr (from (inr right))
      ],
    )

pub default_oifs_iff :
    (routes : List RouteMessage) (oif : ℕ)
    → Has oif (default_oifs routes) ↔ ((msg : RouteMessage) × Has msg routes × IsUniversal oif msg)
unfolding default_oifs
default_oifs_iff [] oif = (λ h. absurd h, λ h. absurd h.1)
default_oifs_iff (first ∷ routes) oif =
    let (to, from) = default_oifs_iff routes oif in
    let (split, join) = Has-append oif first.oifs (default_oifs routes) in
    elim (Bool-cases (first.destination_prefix_length == 0 && is_universe first.scope)) [
      | inl taken ↦
          let both = and_parts first.destination_prefix_length (is_universe first.scope) taken in
          rw taken (
            λ h. elim (split h) [
              | inl here ↦ (first, inl refl, (both.1, (both.0, here)))
              | inr there ↦ let (msg, m, universal) = to there in (msg, inr m, universal)
            ],
            λ h. join (elim h.1 [
              | inl e ↦ inl (subst (λ (m : RouteMessage). Has oif m.oifs) e h.2.1.1)
              | inr m ↦ inr (from (h.0, m, h.2))
            ]),
          )
      | inr left ↦ rw left (
        λ h. let (msg, m, universal) = to h in (msg, inr m, universal),
        λ h. elim h.1 [
          | inl e ↦
              let (universal, (zero, _)) = subst (λ m. IsUniversal oif m) e h.2 in
              absurd (
                not_both first.destination_prefix_length (is_universe first.scope) zero universal
                  left)
          | inr m ↦ from (h.0, m, h.2)
        ],
      )
    ]
