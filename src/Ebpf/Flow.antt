-- ===== src/Ebpf/Flow.antt =====
-- What egress.rs and ingress.rs do to the packets of a flow, and to the bytes on the wire.
use mapecd.Common.{
  ℕ, zero, suc, panic, ◌+◌, ◌*◌, ◌^◌, ◌≤◌, ◌<◌, ◌≡◌, ◌≢◌, refl, arith, ok, some, none,
}
use mapecd.Psid.{PsidConfig, try_new}
use mapecd.Psid.Geometry.{expected, try_new-IsConfig, try_new-eq-ok, try_new_zero}
use mapecd.Ebpf.Context.{TcContext, IsLittleEndian, LoadsWords}
use mapecd.Ebpf.Port.{egress_value}
use mapecd.Ebpf.Fields.{InStaging, IsOwnPort, egress_value_answers, ingress_value_answers}
use mapecd.Ebpf.Inverse.{egress-ingress, translations_pass_others}
use mapecd.Ebpf.Packet.{l4_csum_offset, update_tcp_udp_csum}
use mapecd.Ebpf.Egress.{tc_egress}
use mapecd.Ebpf.Ingress.{tc_ingress}
use mapecd.Ebpf.Programs.{
  IsL4Packet, l4_start, tc_egress_translated, tc_ingress_translated, tc_egress_passed,
  tc_egress_ne_panic, tc_ingress_ne_panic, no_offset_passes, no_config_passes,
}

module _ (t : TcContext) (o l psid : ℕ) {c : PsidConfig} (has : 1 ≤ o) (small : psid < 2 ^ l)
    (made : try_new o l psid ≡ ok c) where
  offset_of : 1 ≤ c.offset
  offset_of = let v = try_new-IsConfig o l psid has small made in v.has_offset

  -- Where egress translates the staging value `s` to `p`, `p` is a port of this PSID. A TCP or UDP
  -- packet whose source port, as the program loads it, is `s` leaves with `p` there and a mended
  -- checksum; a packet that comes back to the port `p` is delivered to `s`, with its checksum
  -- mended. Both writes to the packet are supposed to succeed.
  pub flow_returns :
      (out out' back back' : t.Ctx) (ihl proto ihl' proto' s p : ℕ)
      → IsL4Packet t out ihl proto
      → IsL4Packet t back ihl' proto'
      → InStaging c s
      → egress_value c s ≡ ok (some p)
      → t.load_u16 out (l4_start ihl + 0) ≡ some s
      → t.store_u16 out (l4_start ihl + 0) p ≡ some out'
      → t.load_u16 back (l4_start ihl' + 2) ≡ some p
      → t.store_u16 back (l4_start ihl' + 2) s ≡ some back'
      → IsOwnPort c p
        × (tc_egress t (some c) out
            ≡ ok
                (t.tc_act_ok, update_tcp_udp_csum t out' (l4_csum_offset (l4_start ihl) proto) s p))
        × (tc_ingress t (some c) back
            ≡ ok (
              t.tc_act_ok,
              update_tcp_udp_csum t back' (l4_csum_offset (l4_start ihl') proto') p s,
            ))
  flow_returns out out' back back' ihl proto ihl' proto' s p sent received staged translated loaded
        stored came delivered =
      let (q, there, own, _, here) = egress-ingress o l psid has small made s staged in
      let same : q ≡ p = cc in
      (
        rw same at own,
        tc_egress_translated t c offset_of out out' ihl proto s p sent loaded translated stored,
        tc_ingress_translated t c offset_of back back' ihl' proto' p s received came
            (rw same at here) delivered,
      )

-- For every configuration that `try_new` makes of a PSID of its width, and for every packet, neither
-- program panics, on the supposition that a loaded `u16` has 16 bits.
pub programs_answer :
    (t : TcContext) (o l psid : ℕ) {c : PsidConfig}
    → LoadsWords t
    → psid < 2 ^ l
    → try_new o l psid ≡ ok c
    → (ctx : t.Ctx) → (tc_egress t (some c) ctx ≢ panic) × (tc_ingress t (some c) ctx ≢ panic)
programs_answer t zero l psid {c} words small made ctx =
    let passed = no_offset_passes t c (try_new_zero l psid made) ctx in
    (λ e. cc (passed.0), λ e. cc (passed.1))
programs_answer t (suc o) l psid {c} words small made ctx =
    let v = try_new-IsConfig (suc o) l psid (omega arith) small made in
    (
      tc_egress_ne_panic t c (egress_value_answers c v) ctx,
      tc_ingress_ne_panic t c words (ingress_value_answers c v) ctx,
    )

-- Before a configuration is written, and with a configuration that `try_new` makes of the offset 0,
-- both programs answer `TC_ACT_OK` and leave every packet as it is.
pub unconfigured_passes :
    (t : TcContext) (l psid : ℕ) {c : PsidConfig}
    → try_new 0 l psid ≡ ok c
    → (ctx : t.Ctx)
    → (tc_egress t none ctx ≡ ok (t.tc_act_ok, ctx))
      × (tc_ingress t none ctx ≡ ok (t.tc_act_ok, ctx))
      × (tc_egress t (some c) ctx ≡ ok (t.tc_act_ok, ctx))
      × (tc_ingress t (some c) ctx ≡ ok (t.tc_act_ok, ctx))
unconfigured_passes t l psid {c} made ctx =
    let unwritten = no_config_passes t ctx in
    let passed = no_offset_passes t c (try_new_zero l psid made) ctx in
    (unwritten.0, unwritten.1, passed.0, passed.1)

-- The bytes of a port on the wire stand high byte first, and `ctx.load` reads them low byte first.
-- So with the v6plus widths (4 and 8) a TCP or UDP packet with a source port of the staging range
-- 4096 to 4335 leaves as it is, with no translation, unless the port is 0x1010.
pub tc_egress_swaps_bytes :
    (t : TcContext)
    → IsLittleEndian t
    → (psid : ℕ) {c : PsidConfig} → psid < 2 ^ 8
    → try_new 4 8 psid ≡ ok c
    → (ctx : t.Ctx) (ihl proto high low : ℕ) → IsL4Packet t ctx ihl proto
    → t.load_u8 ctx (l4_start ihl + 0) ≡ some high
    → t.load_u8 ctx (l4_start ihl + 0 + 1) ≡ some low
    → InStaging c (256 * high + low)
    → 256 * high + low ≢ 0x1010
    → tc_egress t (some c) ctx ≡ ok (t.tc_act_ok, ctx)
unfolding expected
tc_egress_swaps_bytes t le psid {c} small made ctx ihl proto high low packet hi lo staged other =
    let (fits, same) = try_new-eq-ok 4 8 psid (omega arith) made in
    let v = try_new-IsConfig 4 8 psid (omega arith) small made in
    let first : c.staging_min ≡ 4096 = rw same refl in
    let last : c.staging_max ≡ 4335 = rw same refl in
    let high_byte = le.bytes ctx (l4_start ihl + 0) high hi in
    let low_byte = le.bytes ctx (l4_start ihl + 0 + 1) low lo in
    let passed : egress_value c (high + 256 * low) ≡ ok none =
      (translations_pass_others 4 8 psid (omega arith) small made (high + 256 * low)
          (omega arith)).1.1
        (λ inside. other (omega arith)) in
    tc_egress_passed t c v.has_offset ctx ihl proto (high + 256 * low) packet
      (le.loads ctx (l4_start ihl + 0) high low hi lo) passed
