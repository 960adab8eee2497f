-- ===== src/Daemon/State.antt =====
-- src/daemon/state.rs.
pub mod Choice
pub mod Answers
use mapecd.Common.{
  ℕ, Bool, true, false, if◌then◌else◌, is_empty, List, [], ◌∷◌, Option, none, some, Res, ok, err,
  panic,
}
use mapecd.Map.Net.{Ipnet}
use mapecd.Map.Rule.{MapeError, no_prefix_match, CeFormat, MapRule, MapeParams}
use mapecd.Map.Calc.{compute_mape_params}

-- `DaemonState<E>`; `Text` holds the saved sysctl values.
pub record DaemonState (I : Ipnet) (Text E : Type 0) : Type 0 where
  pub pending_map_rules : Option (List (MapRule I))
  pub pending_ia_pd : Option I.Ipv6Net
  pub params : Option (MapeParams I)
  pub tunnel_ifindex : Option ℕ
  pub original_ip_forward : Option Text
  pub original_ipv6_forward : Option Text
  pub ebpf : Option E

module _ (I : Ipnet) where
  -- `for rule in rules`: the parameters of the first rule that contains the prefix and computes.
  unfoldable pub try_rules : I.Ipv6Net → CeFormat → List (MapRule I) → Res MapeError (MapeParams I)
  try_rules ce_prefix format [] = err no_prefix_match
  try_rules ce_prefix format (rule ∷ rules) =
      let rest = try_rules ce_prefix format rules in
      if I.contains6 rule.ipv6_prefix (I.addr6 ce_prefix)
      then elim (compute_mape_params I ce_prefix rule format) [
        | ok p ↦ ok p
        | err _ ↦ rest
        | panic ↦ panic
      ]
      else rest

  module _ {Text E : Type 0} where
    -- `DaemonState::default`
    unfoldable pub new_state : DaemonState I Text E
    new_state = record {
      pending_map_rules = none;
      pending_ia_pd = none;
      params = none;
      tunnel_ifindex = none;
      original_ip_forward = none;
      original_ipv6_forward = none;
      ebpf = none;
    }

    -- `self.params = Some(p)` and `Ok(true)`, or the error.
    unfoldable pub store_params :
        DaemonState I Text E
        → Res MapeError (MapeParams I)
        → Res MapeError Bool × DaemonState I Text E
    store_params state (ok p) = (ok true, record state { params = some p })
    store_params state (err e) = (err e, state)
    store_params state panic = (panic, state)

    -- With rules that are not empty.
    unfoldable pub try_compute_rules :
        DaemonState I Text E
        → CeFormat
        → List (MapRule I)
        → Res MapeError Bool × DaemonState I Text E
    try_compute_rules state format rules = elim state.pending_ia_pd [
      | none ↦ (ok false, state)
      | some ce_prefix ↦ store_params state (try_rules ce_prefix format rules)
    ]

    unfoldable pub try_compute :
        CeFormat → DaemonState I Text E → Res MapeError Bool × DaemonState I Text E
    try_compute format state = elim state.pending_map_rules [
      | none ↦ (ok false, state)
      | some rules ↦
          if is_empty rules then (ok false, state) else try_compute_rules state format rules
    ]
