-- ===== src/Tests/Client.antt =====
-- Runs of the theorems on src/dhcpv6/client.rs, in a network that follows a script: each wait hands
-- over the next arrival, or lasts until its deadline where there is none left.
use mapecd.Common.{
  ℕ, suc, All, ◌+◌, ◌-◌, ◌*◌, ◌^◌, ◌≤◌, ◌<◌, ◌≡◌, refl, arith, max, true, false, List, [], ◌∷◌,
  Option, none, some, ok, panic, length, pow_pos,
}
use mapecd.Dhcp.Prefix.{
  IaPd, ia_prefix, find_iapd_from, find_iapd, find_iaprefix, statuses_succeed, complement_timer,
  build_ia_prefix, info_of, info_of_iapd, info_of_options, parse_ia_pd_info,
}
use mapecd.Dhcp.Rules.{find_container, parse_mape_container}
use mapecd.Dhcp.Client.Message.{
  advertise, reply, server_id, iapd, DhcpMessage, Dhcproto, get_status, get_server_id, get_iapd,
  get_server_unicast, option_of, decode_options, extract_server_duid, extract_ia_pd, is_advertise,
  is_reply, status_passes, accept_advertise, accept_reply, parse_advertise, parse_reply,
}
use mapecd.Dhcp.Client.Build.{
  build_oro, encode_msg, encode_with, solicit_options, build_solicit, server_options, build_request,
}
use mapecd.Dhcp.Client.Lease.{
  LeaseInfo, lease_event, renewal_event, rules_of, lease_of, process_reply_message, process_reply,
}
use mapecd.Dhcp.Client.Network.{
  SocketAddr, Selected, received, timed_out, recv_failed, cancelled, Network, from_secs,
}
use mapecd.Dhcp.Client.Exchange.{
  sol_timeout, next_rt, jitter_rt, solicit_selected, solicit_loop, request_selected, request_loop,
  lease_of_reply, request_lease, do_initial_exchange,
}
use mapecd.Dhcp.Client.Exchange.Backoff.{
  IsWait, timeouts, IsObserver, IsFollowed, solicit_loop_backs_off,
}
use mapecd.Dhcp.Client.Exchange.Accepted.{IsLeased, do_initial_exchange-IsLeased}
use mapecd.Dhcp.Client.Renewal.{LoopEnd, lifetime_secs, renewal_phases, do_renewal_loop}
use mapecd.Dhcp.Client.Renewal.Clock.{IsClock}
use mapecd.Dhcp.Client.Renewal.Lifetime.{renewal_phases_end, infinite_lifetime_panics}
use mapecd.Dhcp.Client.Renewal.Windows.{IsInvariant, renewal_phases_in_time}
use mapecd.Dhcp.Client.Duid.{
  to_be_bytes, duid_time, duid_llt, get_mac_addr, create_parent_dir, create_duid,
  load_or_create_duid,
}
use mapecd.Dhcp.Client.Duid.Stable.{IsFiles, load_or_create_duid_stable}
use mapecd.Dhcp.Client.Session.Rules.{empty_lease_drops_rules}
use mapecd.Daemon.Runner.{handle_event}
use mapecd.Tests.Rules.{small_rule}
use mapecd.Tests.Sessions.{host, cache, config, up_state, run_of}
use mapecd.Tests.Network.{networks}

abbrev pd : IaPd
pd = record {
  id = 1;
  t1 = 0;
  t2 = 0;
  opts =
      ia_prefix
        (record { prefix_ip = 0x20010db800123400 * 2 ^ 64; prefix_len = 56; valid_lifetime = 4 })
      ∷ [];
}

abbrev offer : DhcpMessage IaPd Unit
offer = record { msg_type = advertise; xid = 7; opts = server_id (9 ∷ []) ∷ iapd pd ∷ [] }

abbrev answer : DhcpMessage IaPd Unit
answer = record { msg_type = reply; xid = 7; opts = server_id (9 ∷ []) ∷ iapd pd ∷ [] }

abbrev decode_test : List ℕ → Option (DhcpMessage IaPd Unit)
decode_test [] = none
decode_test (x ∷ []) = some offer
decode_test (x ∷ y ∷ rest) = some answer

abbrev dhcproto : Dhcproto
dhcproto = record {
  Iapd = IaPd;
  Other = Unit;
  new_iapd = λ id t1 t2. record { id = id; t1 = t1; t2 = t2; opts = [] };
  view = λ ia_pd. ia_pd;
  insert = λ o opts. o ∷ opts;
  encode = λ _. some (1 ∷ 2 ∷ []);
  decode = decode_test;
}

record Scene : Type 0 where
  clock : ℕ
  arrivals : List Selected
  sent : List (ℕ × List ℕ × SocketAddr)
  file : Option (List ℕ)

abbrev next_arrival : List Selected → ℕ → ℕ → Scene → Option Selected × Scene
next_arrival [] timeout until s = (none, record s { clock = suc (max s.clock until) })
next_arrival (x ∷ xs) timeout until s =
    (some x, record s { clock = suc (s.clock + timeout); arrivals = xs })

abbrev first_arrival : List Selected → ℕ → Scene → Selected × Scene
first_arrival [] timeout s = (cancelled, s)
first_arrival (x ∷ xs) timeout s = (x, record s { clock = suc (s.clock + timeout); arrivals = xs })

abbrev network : Network networks
network = record {
  World = Scene;
  instant_now = λ s. (s.clock, s);
  random_xid = λ s. (7, s);
  random_f64 = λ s. (0, s);
  send_to = λ bytes to s. (true, record s { sent = (s.clock, bytes, to) ∷ s.sent });
  select = λ timeout s. first_arrival s.arrivals timeout s;
  select_until = λ timeout until s. next_arrival s.arrivals timeout until s;
  sleep_until = λ until s. (true, record s { clock = max s.clock until });
  sleep = λ secs s. (true, s);
  send_within = λ secs bytes to s. record s { sent = (s.clock, bytes, to) ∷ s.sent };
  is_cancelled = λ s. (false, s);
  send_event = λ event s. (true, s);
  exists_file = λ path s. (elim s.file [ none ↦ false | some _ ↦ true ], s);
  read = λ path s. (s.file, s);
  write = λ path bytes s. (true, record s { file = some bytes });
  create_dir_all = λ path s. (true, s);
  parent = λ path. none;
  unix_time = λ s. (1000000000, s);
  getifaddrs = λ s. (none, s);
  if_nametoindex = λ iface s. (some 1, s);
  create_socket = λ iface s. (true, s);
}

next_arrival_keeps :
    (arrivals : List Selected) (timeout until : ℕ) (s : Scene)
    → s.clock ≤ (next_arrival arrivals timeout until s).1.clock
next_arrival_keeps [] timeout until s = omega arith
next_arrival_keeps (x ∷ xs) timeout until s = omega arith

-- Where the wait is over before its deadline, its time has passed, and one arrival is taken.
next_arrival_takes :
    (arrivals : List Selected) (timeout until : ℕ) (s : Scene) (x : Selected)
    → s.arrivals ≡ arrivals
    → (next_arrival arrivals timeout until s).0 ≡ some x
    → (s.clock + timeout ≤ (next_arrival arrivals timeout until s).1.clock)
      × (length (next_arrival arrivals timeout until s).1.arrivals < length arrivals)
next_arrival_takes [] timeout until s x same h = absurd cc
next_arrival_takes (y ∷ xs) timeout until s x same h = (omega arith, omega arith)

next_arrival_brings :
    (arrivals : List Selected) (timeout until : ℕ) (s : Scene)
    → s.arrivals ≡ arrivals
    → length (next_arrival arrivals timeout until s).1.arrivals ≤ length arrivals
next_arrival_brings [] timeout until s same = rw same (omega arith)
next_arrival_brings (x ∷ xs) timeout until s same = omega arith

network-IsClock : IsClock network
network-IsClock = record {
  clock = λ s. s.clock;
  arrivals = λ s. length s.arrivals;
  now_reads = λ s. refl;
  now_keeps = λ s. omega arith;
  now_brings = λ s. omega arith;
  xid_keeps = λ s. omega arith;
  xid_brings = λ s. omega arith;
  send_keeps = λ bytes to s. omega arith;
  send_brings = λ bytes to s. omega arith;
  event_keeps = λ e s. omega arith;
  event_brings = λ e s. omega arith;
  sleep_keeps = λ until s. omega arith;
  sleep_brings = λ until s. omega arith;
  wait_keeps = λ timeout until s. next_arrival_keeps s.arrivals timeout until s;
  wait_brings = λ timeout until s. next_arrival_brings s.arrivals timeout until s refl;
  times_out =
      λ timeout until s h. (next_arrival_takes s.arrivals timeout until s timed_out refl h).0;
  receives = λ timeout until s bytes h.
      (next_arrival_takes s.arrivals timeout until s (received bytes) refl h).1;
  fails = λ timeout until s h. (next_arrival_takes s.arrivals timeout until s recv_failed refl h).1;
}

network-IsFiles : IsFiles network
network-IsFiles = record {
  content = λ s path. s.file;
  exists_reads = λ path s bytes h. ground arith;
  exists_keeps = λ path s. refl;
  read_gives = λ path s. refl;
  read_keeps = λ path s. refl;
  write_puts = λ path bytes s h. refl;
}

abbrev scene : List Selected → ℕ → Scene
scene arrivals clock = record { clock = clock; arrivals = arrivals; sent = []; file = none }

abbrev lease : LeaseInfo networks dhcproto
lease = record {
  prefix = (0x20010db800123400 * 2 ^ 64, 56);
  t1 = 2;
  t2 = 3;
  valid_lifetime = 4;
  rules = [];
  server_duid = 9 ∷ [];
  server_unicast = none;
  ia_pd_for_release = record { id = 1; t1 = 2; t2 = 3; opts = [] };
}

-- Garbage arrives, and then nothing.
abbrev quiet : Scene
quiet = scene (received [] ∷ timed_out ∷ []) (5 * 10 ^ 9)

renewal_phases_end_example :
    (end : LoopEnd networks dhcproto network) × ((renewal_phases networks dhcproto network []
        (9 ∷ [])
        none
        1
        (5 * 10 ^ 9)
        lease
        quiet).0
      ≡ ok end)
unfolding network-IsClock
renewal_phases_end_example =
    renewal_phases_end networks dhcproto network network-IsClock [] (9 ∷ []) none 1 (5 * 10 ^ 9)
      lease quiet
      (record { t1_fits = omega arith; t2_fits = omega arith; lifetime_fits = omega arith })
      (omega arith) (omega arith) (omega arith)

abbrev lasting : LeaseInfo networks dhcproto
lasting = record lease { valid_lifetime = 2 ^ 32 - 1 }

infinite_lifetime_panics_example :
    (do_renewal_loop networks dhcproto network [] (9 ∷ []) none 1 3 lasting quiet).0 ≡ panic
infinite_lifetime_panics_example =
    infinite_lifetime_panics networks dhcproto network [] (9 ∷ []) none 1 2 lasting quiet refl
      (omega arith)

-- After n timeouts, n times nine tenths of a second have passed.
abbrev Passed : ℕ → Scene → Type 0
Passed n s = n * (9 * 10 ^ 8) ≤ s.clock

wait-Passed :
    (arrivals : List Selected) (n timeout : ℕ) (s : Scene)
    → IsWait n timeout
    → Passed n s
    → Passed (timeouts n (first_arrival arrivals timeout s).0) (first_arrival arrivals timeout s).1
wait-Passed [] n timeout s wait passed = passed
wait-Passed (timed_out ∷ xs) n timeout s wait passed = omega (arith, wait.least, pow_pos n, passed)
wait-Passed (received bytes ∷ xs) n timeout s wait passed = omega (arith, passed)
wait-Passed (recv_failed ∷ xs) n timeout s wait passed = omega (arith, passed)
wait-Passed (cancelled ∷ xs) n timeout s wait passed = omega (arith, passed)

network-IsObserver : IsObserver network (1 ∷ []) Passed Passed
network-IsObserver = record {
  random_fits = λ s. omega arith;
  sends = λ n s passed. passed;
  draws = λ n s passed. passed;
  waits = λ n timeout s wait passed. wait-Passed s.arrivals n timeout s wait passed;
}

-- Nothing arrives, and then garbage does.
abbrev silent : Scene
silent = scene (timed_out ∷ timed_out ∷ received [] ∷ timed_out ∷ []) 0

solicit_loop_backs_off_example :
    IsFollowed networks dhcproto network
      (1 ∷ [])
      Passed
      Passed
      network-IsObserver
      (solicit_loop networks dhcproto network 9 (1 ∷ []) 7 sol_timeout silent).1
solicit_loop_backs_off_example =
    solicit_loop_backs_off networks dhcproto network (1 ∷ []) Passed Passed network-IsObserver 9 7
      silent (omega arith)

-- Whatever is sent, is sent before the end of the lease, 9 seconds on the clock.
abbrev Sent : Scene → Type 0
Sent s = All (λ (t, _, _). t < 9 * 10 ^ 9) s.sent

wait-Sent :
    (arrivals : List Selected) (timeout until : ℕ) (s : Scene)
    → Sent s
    → Sent (next_arrival arrivals timeout until s).1
wait-Sent [] timeout until s h = h
wait-Sent (x ∷ xs) timeout until s h = h

Sent-IsInvariant : IsInvariant network Sent
Sent-IsInvariant = record {
  now_good = λ s h. h;
  xid_good = λ s h. h;
  event_good = λ e s h. h;
  sleep_good = λ until s h. h;
  wait_good = λ timeout until s h. wait-Sent s.arrivals timeout until s h;
}

renewal_phases_in_time_example :
    Sent (renewal_phases networks dhcproto network [] (9 ∷ []) none 1 5 lease quiet).1
unfolding lifetime_secs
renewal_phases_in_time_example =
    renewal_phases_in_time networks dhcproto network Sent Sent-IsInvariant [] (9 ∷ []) none 1 5
      lease quiet (λ xid s bytes built early h. (omega (arith, early), h))
      (λ xid s bytes built early h. (omega (arith, early), h)) tt

-- The second datagram answers the Solicit, and the third one the Request.
abbrev served : Scene
served = scene (received [] ∷ received (0 ∷ []) ∷ received (0 ∷ 0 ∷ []) ∷ []) 0

abbrev leased : LeaseInfo networks dhcproto
leased = record {
  prefix = (0x20010db800123400 * 2 ^ 64, 56);
  t1 = 2;
  t2 = 3;
  valid_lifetime = 4;
  rules = [];
  server_duid = 9 ∷ [];
  server_unicast = none;
  ia_pd_for_release = record { id = 1; t1 = 2; t2 = 3; opts = [] };
}

exchanged : (do_initial_exchange networks dhcproto network 3 [] 1 served).0 ≡ ok (some leased)
unfolding do_initial_exchange build_solicit encode_with encode_msg solicit_options build_oro
    solicit_loop solicit_selected jitter_rt next_rt parse_advertise accept_advertise is_advertise
    status_passes get_status request_lease extract_server_duid get_server_id extract_ia_pd get_iapd
    build_request server_options request_loop request_selected from_secs parse_reply accept_reply
    is_reply lease_of_reply process_reply process_reply_message lease_of rules_of get_server_unicast
    decode_options option_of parse_ia_pd_info info_of_options find_iapd find_iapd_from info_of_iapd
    find_iaprefix statuses_succeed info_of build_ia_prefix complement_timer parse_mape_container
    find_container
exchanged = refl

do_initial_exchange-IsLeased_example : IsLeased networks dhcproto network [] 1 7 served leased
do_initial_exchange-IsLeased_example =
    do_initial_exchange-IsLeased networks dhcproto network 3 [] 1 leased served exchanged

abbrev made_duid : List ℕ
made_duid = 0 ∷ 1 ∷ 0 ∷ 1 ∷ 3 ∷ 45 ∷ 134 ∷ 128 ∷ 0 ∷ 0 ∷ 0 ∷ 0 ∷ 0 ∷ 0 ∷ []

abbrev stored : Scene
stored = record quiet { file = some made_duid }

made : load_or_create_duid network [] [] quiet ≡ (ok made_duid, stored)
unfolding load_or_create_duid create_duid get_mac_addr create_parent_dir duid_llt to_be_bytes
    duid_time
made = refl

load_or_create_duid_stable_example :
    (4 ≤ length made_duid)
    × (stored.file ≡ some made_duid)
    × ((load_or_create_duid network [] [] stored).0 ≡ ok made_duid)
unfolding network-IsFiles
load_or_create_duid_stable_example =
    load_or_create_duid_stable network network-IsFiles [] [] quiet made_duid made

empty_lease_drops_rules_example :
    let first =
      (handle_event networks host cache config
        (lease_event networks dhcproto leased)
        (run_of up_state 0)).1.state in
    let renewed =
      (handle_event networks host cache config
        (renewal_event networks dhcproto leased)
        (run_of up_state 0)).1.state in
    (first.pending_map_rules ≡ some [])
    × (first.pending_ia_pd ≡ some leased.prefix)
    × (renewed.pending_map_rules ≡ some (small_rule ∷ []))
    × (renewed.pending_ia_pd ≡ some leased.prefix)
empty_lease_drops_rules_example =
    empty_lease_drops_rules networks dhcproto host cache config leased (run_of up_state 0) refl refl
