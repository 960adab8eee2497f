-- ===== src/Daemon/Monad.antt =====
-- A method of src/daemon: it changes the daemon's state and the world, also where it fails.
use mapecd.Common.{Option, none, some, Res, ok, err, panic}
use mapecd.Map.Net.{Ipnet}
use mapecd.Map.Rule.{MapeError}
use mapecd.Daemon.State.{DaemonState}
use mapecd.Daemon.Host.{Text, Reply, done, failed, Host}

module _ (I : Ipnet) (H : Host) where
  abbrev pub State : Type 0
  State = DaemonState I Text H.Ebpf

  pub record Run : Type 0 where
    pub state : DaemonState I Text H.Ebpf
    pub world : H.World

  abbrev pub Method : Type 0 → Type 0
  Method A = Run → Res MapeError A × Run

  module _ {A : Type 0} where
    abbrev pub pure : A → Method A
    pure a run = (ok a, run)

    abbrev pub raise : MapeError → Method A
    raise e run = (err e, run)

    abbrev pub answer_of : Reply A → Res MapeError A
    answer_of (done a) = ok a
    answer_of (failed e) = err e

    -- `nl.call(…).await?`
    abbrev pub call : (H.World → Reply A × H.World) → Method A
    call f run = let (reply, world) = f run.world in (answer_of reply, record run { world = world })

  -- `if let Err(e) = nl.call(…).await { warn! }`
  abbrev pub attempt : (H.World → Reply Unit × H.World) → Method Unit
  attempt f run = let (_, world) = f run.world in (ok tt, record run { world = world })

  abbrev pub gets : {A : Type 0} → (DaemonState I Text H.Ebpf → A) → Method A
  gets f run = (ok (f run.state), run)

  abbrev pub modify : (DaemonState I Text H.Ebpf → DaemonState I Text H.Ebpf) → Method Unit
  modify f run = (ok tt, record run { state = f run.state })

  -- A function that changes nothing.
  abbrev pub lift : {A : Type 0} → Res MapeError A → Method A
  lift m run = (m, run)

  -- `if let Some(x) = … { … }`
  abbrev pub when_some : {A : Type 0} → Option A → (A → Method Unit) → Method Unit
  when_some none f run = (ok tt, run)
  when_some (some a) f run = f a run

module _ {I : Ipnet} {H : Host} where
  infixl 5 ◌>>=◌ ◌>>◌
  abbrev pub ◌>>=◌ : {A B : Type 0} → Method I H A → (A → Method I H B) → Method I H B
  ◌>>=◌ m f run =
      let (r, after) = m run in
      elim r [ panic ↦ (panic, after) | err e ↦ (err e, after) | ok a ↦ f a after ]

  abbrev pub ◌>>◌ : {A B : Type 0} → Method I H A → Method I H B → Method I H B
  m >> rest = m >>= λ _. rest
