-- ===== src/Dhcp/Client/Network.antt =====
-- What src/dhcpv6/client.rs calls: the socket, the clock, the random numbers, the cancellation, the
-- channel to the daemon, and the files and interfaces for the DUID, each on a world that it changes;
-- and the async functions over them. An `Instant` is its nanoseconds.
use mapecd.Common.{
  ℕ, ◌+◌, ◌*◌, ◌/◌, ◌^◌, ltb, if◌then◌else◌, Bool, true, false, List, Option, none, some, Res, ok,
  err, panic,
}
use mapecd.Map.Net.{Ipnet}
use mapecd.Daemon.Host.{Text}
use mapecd.Daemon.Runner.{Event}
use mapecd.Dhcp.Client.Lease.{Stop, failure, unfinished}

-- `SocketAddr`
pub record SocketAddr : Type 0 where
  pub ip : ℕ
  pub port : ℕ

-- What a `select!` of `recv_with_timeout` and the cancellation gives: the bytes `&buf[..n]`, at most
-- 4096 of them, `Ok(None)`, an error, or the cancellation.
pub data Selected : Type 0 where
  received : List ℕ → Selected
  timed_out : Selected
  recv_failed : Selected
  cancelled : Selected

-- An entry of `getifaddrs`: the interface, and of a link address its length and the MAC in it.
pub record IfAddr : Type 0 where
  pub interface_name : Text
  pub link_addr : Option (ℕ × Option (List ℕ))

pub record Network (I : Ipnet) : Type 1 where
  pub World : Type 0
  -- `Instant::now`
  pub instant_now : World → ℕ × World
  -- `rand::rng().random()` for three bytes, and for an `f64`, which is that many 2 ^ 53rds.
  pub random_xid : World → ℕ × World
  pub random_f64 : World → ℕ × World
  -- `true` is `Ok`.
  pub send_to : List ℕ → SocketAddr → World → Bool × World
  -- With the timeout in nanoseconds.
  pub select : ℕ → World → Selected × World
  -- With `sleep_until` as a further arm: `none` where that one is taken.
  pub select_until : ℕ → ℕ → World → Option Selected × World
  -- `sleep_until` and `sleep` for seconds, beside the cancellation: `true` where they are slept through.
  pub sleep_until : ℕ → World → Bool × World
  pub sleep : ℕ → World → Bool × World
  -- `send_to` within a number of seconds, whatever it gives.
  pub send_within : ℕ → List ℕ → SocketAddr → World → World
  pub is_cancelled : World → Bool × World
  -- `tx.send`: `true` is `Ok`.
  pub send_event : Event I → World → Bool × World
  pub exists_file : Text → World → Bool × World
  pub read : Text → World → Option (List ℕ) × World
  pub write : Text → List ℕ → World → Bool × World
  pub create_dir_all : Text → World → Bool × World
  -- `Path::parent`
  pub parent : Text → Option Text
  -- Seconds since `UNIX_EPOCH`, or 0.
  pub unix_time : World → ℕ × World
  pub getifaddrs : World → Option (List IfAddr) × World
  pub if_nametoindex : Text → World → Option ℕ × World
  pub create_socket : Text → World → Bool × World

abbrev pub Action : Type 0 → Type 0 → Type 0
Action W A = W → Res Stop A × W

module _ {W : Type 0} where
  module _ {A : Type 0} where
    abbrev pub pure : A → Action W A
    pure a w = (ok a, w)

    abbrev pub raise : Stop → Action W A
    raise stop w = (err stop, w)

    -- A call that cannot fail.
    abbrev pub call : (W → A × W) → Action W A
    call f w = let (a, w') = f w in (ok a, w')

    abbrev pub lift : Res Stop A → Action W A
    lift m w = (m, w)

    -- `.context(…)?` on an option.
    abbrev pub require : Option A → Action W A
    require none w = (err failure, w)
    require (some a) w = (ok a, w)

    -- `match … { Ok(a) => …, Err(e) => … }`: `none` is the error.
    abbrev pub catch : Action W A → Action W (Option A)
    catch m w =
        let (r, w') = m w in
        elim r [
          | ok a ↦ (ok (some a), w')
          | err stop ↦ elim stop [ failure ↦ (ok none, w') | unfinished ↦ (err unfinished, w') ]
          | panic ↦ (panic, w')
        ]

  -- `?` on a call that succeeds or not.
  abbrev pub try_call : (W → Bool × W) → Action W Unit
  try_call f w =
      let (done, w') = f w in elim done [ true ↦ (ok tt, w') | false ↦ (err failure, w') ]

  abbrev pub effect : (W → W) → Action W Unit
  effect f w = (ok tt, f w)

  infixl 5 ◌>>=◌ ◌>>◌
  abbrev pub ◌>>=◌ : {A B : Type 0} → Action W A → (A → Action W B) → Action W B
  ◌>>=◌ m f w =
      let (r, w') = m w in
      elim r [ panic ↦ (panic, w') | err stop ↦ (err stop, w') | ok a ↦ f a w' ]

  abbrev pub ◌>>◌ : {A B : Type 0} → Action W A → Action W B → Action W B
  m >> rest = m >>= λ _. rest

-- `Instant + Duration::from_secs(secs)`: the seconds of an `Instant` are an `i64`.
unfoldable pub add_secs : ℕ → ℕ → Res Stop ℕ
add_secs instant secs =
    if ltb (instant / 10 ^ 9 + secs) (2 ^ 63) then ok (instant + secs * 10 ^ 9) else panic

-- `Duration::from_secs`
unfoldable pub from_secs : ℕ → ℕ
from_secs secs = secs * 10 ^ 9

abbrev pub all_dhcp_relay_agents : SocketAddr
all_dhcp_relay_agents = record { ip = 0xff02 * 2 ^ 112 + 0x10002; port = 547 }

-- `server_unicast.unwrap_or_else(…)`
unfoldable pub destination : Option ℕ → SocketAddr
destination none = all_dhcp_relay_agents
destination (some addr) = record { ip = addr; port = 547 }
