-- ===== src/Daemon/Runner/Invariant.antt =====
-- What the daemon remembers of the host, over all events and all answers of the host.
use mapecd.Common.{
  ◌≡◌, ◌≢◌, ◌⊎◌, inl, inr, refl, arith, Option, none, some, Res, ok, panic, Option-cases,
}
use mapecd.Map.Net.{Ipnet}
use mapecd.Map.Rule.{MapeError, MapeParams}
use mapecd.Daemon.State.{DaemonState}
use mapecd.Daemon.Host.{Text, Host, Config}
use mapecd.Daemon.Monad.{Run, Method}
use mapecd.Daemon.Cache.{CacheFormat}
use mapecd.Daemon.Lifecycle.{apply}
use mapecd.Daemon.Lifecycle.Change.{update, cleanup}
use mapecd.Daemon.Lifecycle.Effects.{IsUp, cleanup_forgets, apply_keeps, apply-IsUp}
use mapecd.Daemon.Lifecycle.Updates.{update-IsSafe}
use mapecd.Daemon.Runner.{or_cleanup, change_params, change_or_reset, apply_computed}

module _ (I : Ipnet) (H : Host) (F : CacheFormat I) where
  -- Nothing is applied.
  pub record IsDown (s : DaemonState I Text H.Ebpf) : Type 0 where
    pub params : s.params ≡ none
    pub tunnel : s.tunnel_ifindex ≡ none
    pub ip_forward : s.original_ip_forward ≡ none
    pub ipv6_forward : s.original_ipv6_forward ≡ none
    pub manager : s.ebpf ≡ none

  -- Parameters are applied, and all that `cleanup` needs is remembered.
  pub record IsLive (s : DaemonState I Text H.Ebpf) : Type 0 where
    pub params : s.params ≢ none
    pub up : IsUp I H s

  abbrev pub IsConsistent : DaemonState I Text H.Ebpf → Type 0
  IsConsistent s = IsDown s ⊎ IsLive s

  -- The state a step leaves, unless it panics.
  pub record IsSound (m : Res MapeError Unit × Run I H) : Type 0 where
    pub sound : m.0 ≢ panic → IsConsistent m.1.state

  -- A step that ends with everything up, or fails.
  record IsAttempt (s : DaemonState I Text H.Ebpf) (m : Res MapeError Unit × Run I H) : Type 0 where
    kept : m.1.state.params ≡ s.params
    up : m.0 ≡ ok tt → IsUp I H m.1.state

  or_cleanup-IsSound :
      (config : Config) (new : MapeParams I) (m : Method I H Unit) (run : Run I H)
      → run.state.params ≢ none
      → IsAttempt run.state (m run)
      → IsSound (or_cleanup I H F config new m run)
  unfolding or_cleanup
  or_cleanup-IsSound config new m run some_params attempted =
      let after = (m run).1 in let cleaned = cleanup_forgets I H config new after in ground arith

  apply-IsAttempt :
      (config : Config) (new : MapeParams I) (run : Run I H)
      → IsAttempt run.state (apply I H config new run)
  apply-IsAttempt config new run =
      let keeps = apply_keeps I H config new run in
      record { kept = keeps.params; up = apply-IsUp I H config new run }

  update-IsAttempt :
      (config : Config) (old new : MapeParams I) (run : Run I H)
      → IsUp I H run.state
      → IsAttempt run.state (update I H config old new run)
  update-IsAttempt config old new run up =
      let safe = update-IsSafe I H config old new run in
      let kept = safe.kept in record { kept = kept.params; up = λ e. safe.up e up }

  apply-IsSound :
      (config : Config) (new : MapeParams I) (run : Run I H)
      → run.state.params ≢ none
      → IsSound (or_cleanup I H F config new (apply I H config new) run)
  apply-IsSound config new run some_params =
      or_cleanup-IsSound config new (apply I H config new) run some_params
        (apply-IsAttempt config new run)

  -- A full reset: `cleanup`, then `apply`.
  reset-IsSound :
      (config : Config) (old new : MapeParams I) (run : Run I H)
      → run.state.params ≢ none
      → IsSound (or_cleanup I H F config new (apply I H config new) (cleanup I H config old run).1)
  reset-IsSound config old new run some_params =
      let forgets = cleanup_forgets I H config old run in
      let still : (cleanup I H config old run).1.state.params ≢ none = rw (forgets.1) some_params in
      apply-IsSound config new (cleanup I H config old run).1 still

  change_params-IsSound :
      (config : Config) (old new : MapeParams I) (run : Run I H)
      → IsLive run.state
      → IsSound (change_params I H F config old new run)
  unfolding change_params
  change_params-IsSound config old new run live =
      let some_params = live.params in
      let updated =
        or_cleanup-IsSound config new (update I H config old new) run live.params
          (update-IsAttempt config old new run live.up) in
      ground
        (arith, cleanup_forgets I H config old run, reset-IsSound config old new run live.params)

  pub apply_computed-IsSound :
      (config : Config) (old_params : Option (MapeParams I)) (run : Run I H)
      → run.state.params ≢ none
      → (run.state.tunnel_ifindex ≡ none) ⊎ (IsUp I H run.state × (old_params ≢ none))
      → IsSound (apply_computed I H F config old_params run)
  unfolding apply_computed change_or_reset
  apply_computed-IsSound config old_params run some_params (inl no_tunnel) =
      elim (Option-cases run.state.params) [
        | inl missing ↦ absurd (some_params missing)
        | inr (new, e) ↦ ground (arith, apply-IsSound config new run some_params)
      ]
  apply_computed-IsSound config (some old) run some_params (inr (up, some_old)) =
      let live : IsLive run.state = record { params = some_params; up = up } in
      elim (Option-cases run.state.params) [
        | inl missing ↦ absurd (some_params missing)
        | inr (new, e) ↦ ground (arith, change_params-IsSound config old new run live)
      ]
  apply_computed-IsSound config none run some_params (inr (up, some_old)) = absurd (some_old refl)
