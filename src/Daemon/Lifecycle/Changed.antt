-- ===== src/Daemon/Lifecycle/Changed.antt =====
-- What `has_changed` (src/daemon/lifecycle.rs) compares.
use mapecd.Common.{
  ◌==◌, ==_iff, ◌≡◌, ◌↔◌, refl, ap, arith, Bool, true, false, not, ◌||◌, ◌&&◌, List, [], ◌∷◌,
}
use mapecd.Map.Net.{Ipnet}
use mapecd.Map.Rule.{PortParams, PortRange, MapeParams}
use mapecd.Daemon.Lifecycle.Change.{range_eq, ranges_eq, port_params_eq, has_changed}

and_iff : (a b : Bool) → ((a && b) ≡ true) ↔ ((a ≡ true) × (b ≡ true))
and_iff a b = ground arith

range_eq_iff : (r r' : PortRange) → (range_eq r r' ≡ true) ↔ (r ≡ r')
unfolding range_eq
range_eq_iff r r' = (
  λ h.
      let (starts, lasts) = (and_iff (r.start == r'.start) (r.last == r'.last)).0 h in
      let e = (==_iff r.start r'.start).0 starts in let e' = (==_iff r.last r'.last).0 lasts in cc,
  λ e. (and_iff (r.start == r'.start) (r.last == r'.last)).1 (
    (==_iff r.start r'.start).1 (ap (λ (x : PortRange). x.start) e),
    (==_iff r.last r'.last).1 (ap (λ (x : PortRange). x.last) e),
  ),
)

ranges_eq_iff : (rs rs' : List PortRange) → (ranges_eq rs rs' ≡ true) ↔ (rs ≡ rs')
unfolding ranges_eq
ranges_eq_iff [] [] = (λ h. refl, λ e. refl)
ranges_eq_iff [] (r' ∷ rs') = (λ h. absurd cc, λ e. absurd cc)
ranges_eq_iff (r ∷ rs) [] = (λ h. absurd cc, λ e. absurd cc)
ranges_eq_iff (r ∷ rs) (r' ∷ rs') =
    let (to, from) = ranges_eq_iff rs rs' in
    let (to', from') = range_eq_iff r r' in
    let (split, join) = and_iff (range_eq r r') (ranges_eq rs rs') in
    (λ h. let e = to' (split h).0 in let e' = to (split h).1 in cc, λ e. join (from' cc, from cc))

pub port_params_eq_iff : (p p' : PortParams) → (port_params_eq p p' ≡ true) ↔ (p ≡ p')
unfolding port_params_eq
port_params_eq_iff p p' =
    let (split, join) =
      and_iff (p.psid_offset == p'.psid_offset) (p.psid_length == p'.psid_length) in
    (
      λ h.
          let e = (==_iff p.psid_offset p'.psid_offset).0 (split h).0 in
          let e' = (==_iff p.psid_length p'.psid_length).0 (split h).1 in cc,
      λ e. join (
        (==_iff p.psid_offset p'.psid_offset).1 (ap (λ (x : PortParams). x.psid_offset) e),
        (==_iff p.psid_length p'.psid_length).1 (ap (λ (x : PortParams). x.psid_length) e),
      ),
    )

module _ (I : Ipnet) where
  -- Two results of a computation for which the host is configured alike.
  pub record IsSame (old new : MapeParams I) : Type 0 where
    pub ce_ipv6 : old.ce_ipv6 ≡ new.ce_ipv6
    pub ipv4 : old.ipv4 ≡ new.ipv4
    pub psid : old.psid ≡ new.psid
    pub br_address : old.br_address ≡ new.br_address
    pub port_ranges : old.port_ranges ≡ new.port_ranges
    pub port_params : old.rule.port_params ≡ new.rule.port_params

  unchanged_tests :
      (a b c d e f : Bool)
      → (not a || not b || not c || not d || not e || not f) ≡ false
      → (a ≡ true) × (b ≡ true) × (c ≡ true) × (d ≡ true) × (e ≡ true) × (f ≡ true)
  unchanged_tests a b c d e f h = ground arith

  pub has_changed_iff : (old new : MapeParams I) → (has_changed I old new ≡ false) ↔ IsSame old new
  unfolding has_changed
  has_changed_iff old new =
      let (ports, ports') = ranges_eq_iff old.port_ranges new.port_ranges in
      let (params, params') = port_params_eq_iff old.rule.port_params new.rule.port_params in
      let (ce, ce') = ==_iff old.ce_ipv6 new.ce_ipv6 in
      let (v4, v4') = ==_iff old.ipv4 new.ipv4 in
      let (id, id') = ==_iff old.psid new.psid in
      let (br, br') = ==_iff old.br_address new.br_address in
      (
        λ h.
            let (a, b, c, d, e, f) =
              unchanged_tests (old.ce_ipv6 == new.ce_ipv6) (old.ipv4 == new.ipv4)
                (old.psid == new.psid) (old.br_address == new.br_address)
                (ranges_eq old.port_ranges new.port_ranges)
                (port_params_eq old.rule.port_params new.rule.port_params) h in
            record {
              ce_ipv6 = ce a;
              ipv4 = v4 b;
              psid = id c;
              br_address = br d;
              port_ranges = ports e;
              port_params = params f;
            },
        λ s.
            rw
              (
                ce' s.ce_ipv6,
                v4' s.ipv4,
                id' s.psid,
                br' s.br_address,
                ports' s.port_ranges,
                params' s.port_params,
              )
              refl,
      )
