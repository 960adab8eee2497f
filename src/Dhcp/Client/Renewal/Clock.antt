-- ===== src/Dhcp/Client/Renewal/Clock.antt =====
-- What src/dhcpv6/client.rs relies on in the clock and the socket, and the steps of the renewal that
-- only keep it.
use mapecd.Common.{
  ℕ, suc, ◌+◌, ◌≤◌, ◌<◌, ◌≡◌, ◌≢◌, arith, refl, Bool, true, false, List, [], ◌∷◌, Option, none,
  some, Res, ok, err, panic,
}
use mapecd.Map.Net.{Ipnet}
use mapecd.Daemon.Runner.{Event}
use mapecd.Dhcp.Rules.{
  net4_of, net6_of, parse_rule_ipv6, parse_rule_prefix6, parse_rule_ipv4, parse_s46_rule,
  parse_rules, rules_of_container, parse_s46_cont_mape, parse_mape_container,
}
use mapecd.Dhcp.Client.Message.{Dhcproto}
use mapecd.Dhcp.Client.Lease.{
  Stop, unfinished, rules_of, lease_of, process_reply_message, process_reply,
}
use mapecd.Dhcp.Client.Network.{
  SocketAddr, Selected, received, timed_out, recv_failed, cancelled, Network,
}
use mapecd.Dhcp.Client.Renewal.{take_encoded, take_reply}

-- The clock and the socket. `Instant` is monotonic: no call turns it back, and a timeout is over only
-- when its time has passed. `arrivals` bounds what is still to come from the socket, datagrams and
-- errors; each one that is taken is one less.
pub record IsClock {I : Ipnet} (N : Network I) : Type 0 where
  pub clock : N.World → ℕ
  pub arrivals : N.World → ℕ
  pub now_reads : (w : N.World) → (N.instant_now w).0 ≡ clock w
  pub now_keeps : (w : N.World) → clock w ≤ clock (N.instant_now w).1
  pub now_brings : (w : N.World) → arrivals (N.instant_now w).1 ≤ arrivals w
  pub xid_keeps : (w : N.World) → clock w ≤ clock (N.random_xid w).1
  pub xid_brings : (w : N.World) → arrivals (N.random_xid w).1 ≤ arrivals w
  pub send_keeps :
      (bytes : List ℕ) (to : SocketAddr) (w : N.World) → clock w ≤ clock (N.send_to bytes to w).1
  pub send_brings :
      (bytes : List ℕ) (to : SocketAddr) (w : N.World)
      → arrivals (N.send_to bytes to w).1 ≤ arrivals w
  pub event_keeps : (e : Event I) (w : N.World) → clock w ≤ clock (N.send_event e w).1
  pub event_brings : (e : Event I) (w : N.World) → arrivals (N.send_event e w).1 ≤ arrivals w
  pub sleep_keeps : (until : ℕ) (w : N.World) → clock w ≤ clock (N.sleep_until until w).1
  pub sleep_brings : (until : ℕ) (w : N.World) → arrivals (N.sleep_until until w).1 ≤ arrivals w
  pub wait_keeps :
      (timeout until : ℕ) (w : N.World) → clock w ≤ clock (N.select_until timeout until w).1
  pub wait_brings :
      (timeout until : ℕ) (w : N.World) → arrivals (N.select_until timeout until w).1 ≤ arrivals w
  pub times_out :
      (timeout until : ℕ) (w : N.World)
      → (N.select_until timeout until w).0 ≡ some timed_out
      → clock w + timeout ≤ clock (N.select_until timeout until w).1
  pub receives :
      (timeout until : ℕ) (w : N.World) (bytes : List ℕ)
      → (N.select_until timeout until w).0 ≡ some (received bytes)
      → arrivals (N.select_until timeout until w).1 < arrivals w
  pub fails :
      (timeout until : ℕ) (w : N.World)
      → (N.select_until timeout until w).0 ≡ some recv_failed
      → arrivals (N.select_until timeout until w).1 < arrivals w

-- A result that is neither an error nor a panic.
abbrev pub is_ok : {A : Type 0} → Res Stop A → Bool
is_ok (ok _) = true
is_ok (err _) = false
is_ok panic = false

pub ok_value : {A : Type 0} (r : Res Stop A) → is_ok r ≡ true → (a : A) × (r ≡ ok a)
ok_value (ok a) h = (a, refl)
ok_value (err stop) h = absurd cc
ok_value panic h = absurd cc

module _ (I : Ipnet) where
  parse_s46_rule-ne-panic : (payload : List ℕ) (br : ℕ) → parse_s46_rule I payload br ≢ panic
  unfolding parse_s46_rule parse_rule_ipv4 parse_rule_prefix6 parse_rule_ipv6 net4_of net6_of
  parse_s46_rule-ne-panic payload br = ground arith

  parse_rules-ne-panic : (payloads : List (List ℕ)) (br : ℕ) → parse_rules I payloads br ≢ panic
  unfolding parse_rules
  parse_rules-ne-panic [] br = λ h. absurd cc
  parse_rules-ne-panic (payload ∷ payloads) br =
      ground (arith, parse_s46_rule-ne-panic payload br, parse_rules-ne-panic payloads br)

  module _ (D : Dhcproto) where
    rules_of-ne-panic : (raw : List ℕ) → rules_of I D raw ≢ panic
    unfolding rules_of parse_mape_container parse_s46_cont_mape rules_of_container
    rules_of-ne-panic raw = grind (arith, parse_rules-ne-panic)

    process_reply_ends :
        (raw : List ℕ) (iaid : ℕ) (duid : List ℕ) → process_reply I D raw iaid duid ≢ err unfinished
    unfolding process_reply process_reply_message lease_of rules_of
    process_reply_ends raw iaid duid = ground arith

    process_reply-ne-panic :
        (raw : List ℕ) (iaid : ℕ) (duid : List ℕ) → process_reply I D raw iaid duid ≢ panic
    unfolding process_reply process_reply_message lease_of
    process_reply-ne-panic raw iaid duid = ground (arith, rules_of-ne-panic raw)

    take_reply_good :
        (N : Network I) (Good : N.World → Type 0)
        → ((e : Event I) (w : N.World) → Good w → Good (N.send_event e w).1)
        → (iaid : ℕ) (duid : List ℕ) (xid : ℕ) (raw : List ℕ) (w : N.World) → Good w
        → Good (take_reply I D N iaid duid xid raw w).1
    unfolding take_reply take_encoded
    take_reply_good N Good event_good iaid duid xid raw w good = grind (arith, event_good)

    module _ (N : Network I) (law : IsClock N) where
      pub take_reply_keeps :
          (iaid : ℕ) (duid : List ℕ) (xid : ℕ) (raw : List ℕ) (w : N.World)
          → law.clock w ≤ law.clock (take_reply I D N iaid duid xid raw w).1
      take_reply_keeps iaid duid xid raw w =
          take_reply_good N (λ w'. law.clock w ≤ law.clock w')
            (λ e w' h. omega (arith, h, law.event_keeps e w')) iaid duid xid raw w (omega arith)

      pub take_reply_brings :
          (iaid : ℕ) (duid : List ℕ) (xid : ℕ) (raw : List ℕ) (w : N.World)
          → law.arrivals (take_reply I D N iaid duid xid raw w).1 ≤ law.arrivals w
      take_reply_brings iaid duid xid raw w =
          take_reply_good N (λ w'. law.arrivals w' ≤ law.arrivals w)
            (λ e w' h. omega (arith, h, law.event_brings e w')) iaid duid xid raw w (omega arith)

      pub take_reply_ends :
          (iaid : ℕ) (duid : List ℕ) (xid : ℕ) (raw : List ℕ) (w : N.World)
          → is_ok (take_reply I D N iaid duid xid raw w).0 ≡ true
      unfolding take_reply take_encoded
      take_reply_ends iaid duid xid raw w =
          grind (arith, process_reply_ends, process_reply-ne-panic)

      -- A wait that goes on has brought the end of the clock or of the arrivals nearer.
      abbrev pub goes_on : Option Selected → Bool
      goes_on none = false
      goes_on (some (received _)) = true
      goes_on (some timed_out) = true
      goes_on (some recv_failed) = true
      goes_on (some cancelled) = false

      abbrev pub IsNearer : ℕ → ℕ → N.World → Type 0
      IsNearer c a w = suc (law.arrivals w + c) ≤ law.clock w + a

      selected-IsNearer :
          (timeout until c a : ℕ) (w : N.World) (selected : Option Selected)
          → (N.select_until timeout until w).0 ≡ selected
          → 0 < timeout
          → c ≤ law.clock w
          → law.arrivals w ≤ a
          → goes_on selected ≡ true
          → IsNearer c a (N.select_until timeout until w).1
      selected-IsNearer timeout until c a w none e some_time clock arrivals h = absurd cc
      selected-IsNearer timeout until c a w (some (received bytes)) e some_time clock arrivals h =
          omega (arith, law.receives timeout until w bytes e, law.wait_keeps timeout until w)
      selected-IsNearer timeout until c a w (some timed_out) e some_time clock arrivals h =
          omega (arith, law.times_out timeout until w e, law.wait_brings timeout until w)
      selected-IsNearer timeout until c a w (some recv_failed) e some_time clock arrivals h =
          omega (arith, law.fails timeout until w e, law.wait_keeps timeout until w)
      selected-IsNearer timeout until c a w (some cancelled) e some_time clock arrivals h =
          absurd cc

      pub select_until-IsNearer :
          (timeout until c a : ℕ) (w : N.World)
          → 0 < timeout
          → c ≤ law.clock w
          → law.arrivals w ≤ a
          → goes_on (N.select_until timeout until w).0 ≡ true
          → IsNearer c a (N.select_until timeout until w).1
      select_until-IsNearer timeout until c a w some_time clock arrivals h =
          selected-IsNearer timeout until c a w (N.select_until timeout until w).0 refl some_time
            clock arrivals h
