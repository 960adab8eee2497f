-- ===== src/Dhcp/Prefix/Timers.antt =====
-- Which IA_PD src/dhcpv6/parser.rs takes, and the timers that it fills in.
use mapecd.Common.{
  ℕ, ◌^◌, ◌≤◌, ◌<◌, ◌≡◌, refl, arith, ◌==◌, if◌then◌else◌, List, [], ◌∷◌, Option, none, some,
}
use mapecd.Dhcp.Rules.{DhcpOption, ia_pd, unknown, other}
use mapecd.Dhcp.Prefix.{IaPd, find_iapd_from, find_iapd, complement_timer}

-- The IA_PDs of a message, in order; the first of some, and the first with an IAID.
abbrev pub iapds : List (DhcpOption IaPd) → List IaPd
iapds [] = []
iapds (ia_pd iapd ∷ opts) = iapd ∷ iapds opts
iapds (unknown _ _ ∷ opts) = iapds opts
iapds (other ∷ opts) = iapds opts

abbrev pub first : List IaPd → Option IaPd
first [] = none
first (iapd ∷ iapds) = some iapd

abbrev pub with_id : ℕ → List IaPd → Option IaPd
with_id id [] = none
with_id id (iapd ∷ rest) = let later = with_id id rest in if iapd.id == id then some iapd else later

abbrev pub or_else : Option IaPd → Option IaPd → Option IaPd
or_else none later = later
or_else (some iapd) later = some iapd

find_iapd_from-none :
    (seen : Option IaPd) (opts : List (DhcpOption IaPd))
    → find_iapd_from seen opts none ≡ or_else seen (first (iapds opts))
unfolding find_iapd_from
find_iapd_from-none none [] = refl
find_iapd_from-none (some s) [] = refl
find_iapd_from-none none (ia_pd iapd ∷ opts) = find_iapd_from-none (some iapd) opts
find_iapd_from-none (some s) (ia_pd iapd ∷ opts) = find_iapd_from-none (some s) opts
find_iapd_from-none seen (unknown _ _ ∷ opts) = find_iapd_from-none seen opts
find_iapd_from-none seen (other ∷ opts) = find_iapd_from-none seen opts

find_iapd_from-some :
    (seen : Option IaPd) (opts : List (DhcpOption IaPd)) (id : ℕ)
    → find_iapd_from seen opts (some id)
      ≡ or_else (with_id id (iapds opts)) (or_else seen (first (iapds opts)))
unfolding find_iapd_from
find_iapd_from-some none [] id = refl
find_iapd_from-some (some s) [] id = refl
find_iapd_from-some none (ia_pd iapd ∷ opts) id =
    ground (arith, find_iapd_from-some (some iapd) opts id)
find_iapd_from-some (some s) (ia_pd iapd ∷ opts) id =
    ground (arith, find_iapd_from-some (some s) opts id)
find_iapd_from-some seen (unknown _ _ ∷ opts) id = find_iapd_from-some seen opts id
find_iapd_from-some seen (other ∷ opts) id = find_iapd_from-some seen opts id

-- `find_iapd` is the first IA_PD with the wanted IAID, or the first IA_PD of all where there is none or
-- no IAID is wanted.
pub find_iapd_choice :
    (opts : List (DhcpOption IaPd)) (id : ℕ)
    → (find_iapd opts (some id) ≡ or_else (with_id id (iapds opts)) (first (iapds opts)))
      × (find_iapd opts none ≡ first (iapds opts))
unfolding find_iapd
find_iapd_choice opts id = (find_iapd_from-some none opts id, find_iapd_from-none none opts)

-- Filled-in timers are in order and within the lifetime: for a lifetime of 32 bits the T1 that stands
-- for a 0 is at most the T2 that does, which is at most the lifetime; and a timer that is not 0 stays.
pub complement_timer_ordered :
    (valid_lifetime timer divisor : ℕ)
    → valid_lifetime < 2 ^ 32
    → 0 < timer
    → (complement_timer 0 valid_lifetime 2 ≤ complement_timer 0 valid_lifetime 5)
      × (complement_timer 0 valid_lifetime 5 ≤ valid_lifetime)
      × (complement_timer timer valid_lifetime divisor ≡ timer)
unfolding complement_timer
complement_timer_ordered valid_lifetime timer divisor fits some_timer = ground arith
