-- ===== src/Ebpf/Programs.antt =====
-- egress.rs and ingress.rs on whole packets.
use mapecd.Common.{
  ℕ, ◌+◌, ◌*◌, ◌^◌, ◌≤◌, ◌<◌, ◌≡◌, ◌≢◌, ◌⊎◌, arith, ok, panic, some, none, Option, bit_and,
}
use mapecd.Psid.{PsidConfig}
use mapecd.Ebpf.Context.{TcContext, LoadsWords}
use mapecd.Ebpf.Port.{egress_value, ingress_value}
use mapecd.Ebpf.Packet.{
  Field, ipproto_tcp, ipproto_udp, l4_csum_offset, load_field, rewrite, update_tcp_udp_csum,
}
use mapecd.Ebpf.Egress.{
  egress_field, egress_icmp_field, egress_translate, egress_configured, try_egress, tc_egress,
}
use mapecd.Ebpf.Ingress.{
  ingress_field, ingress_icmp_field, ingress_translate, ingress_configured, try_ingress, tc_ingress,
}

abbrev pub l4_start : ℕ → ℕ
l4_start ihl = bit_and ihl 0x0f * 4

-- An IPv4 packet with this first byte whose protocol, TCP or UDP, is `proto`.
pub record IsL4Packet (t : TcContext) (ctx : t.Ctx) (ihl proto : ℕ) : Type 0 where
  pub first : t.load_u8 ctx 0 ≡ some ihl
  pub protocol : t.load_u8 ctx 9 ≡ some proto
  pub tcp_or_udp : (proto ≡ ipproto_tcp) ⊎ (proto ≡ ipproto_udp)

module _ (t : TcContext) (c : PsidConfig) (has : 1 ≤ c.offset) where
  -- One run on a TCP or UDP packet whose port `x` is translated to `y`.
  pub tc_egress_translated :
      (ctx ctx' : t.Ctx) (ihl proto x y : ℕ)
      → IsL4Packet t ctx ihl proto
      → t.load_u16 ctx (l4_start ihl + 0) ≡ some x
      → egress_value c x ≡ ok (some y)
      → t.store_u16 ctx (l4_start ihl + 0) y ≡ some ctx'
      → tc_egress t (some c) ctx
        ≡ ok (t.tc_act_ok, update_tcp_udp_csum t ctx' (l4_csum_offset (l4_start ihl) proto) x y)
  unfolding tc_egress try_egress egress_configured egress_translate egress_field load_field rewrite
  tc_egress_translated ctx ctx' ihl proto x y packet loaded translated stored = ground arith

  pub tc_ingress_translated :
      (ctx ctx' : t.Ctx) (ihl proto x y : ℕ)
      → IsL4Packet t ctx ihl proto
      → t.load_u16 ctx (l4_start ihl + 2) ≡ some x
      → ingress_value c x ≡ ok (some y)
      → t.store_u16 ctx (l4_start ihl + 2) y ≡ some ctx'
      → tc_ingress t (some c) ctx
        ≡ ok (t.tc_act_ok, update_tcp_udp_csum t ctx' (l4_csum_offset (l4_start ihl) proto) x y)
  unfolding tc_ingress try_ingress ingress_configured ingress_translate ingress_field load_field
      rewrite
  tc_ingress_translated ctx ctx' ihl proto x y packet loaded translated stored = ground arith

  pub tc_egress_passed :
      (ctx : t.Ctx) (ihl proto x : ℕ)
      → IsL4Packet t ctx ihl proto
      → t.load_u16 ctx (l4_start ihl + 0) ≡ some x
      → egress_value c x ≡ ok none
      → tc_egress t (some c) ctx ≡ ok (t.tc_act_ok, ctx)
  unfolding tc_egress try_egress egress_configured egress_translate egress_field load_field
  tc_egress_passed ctx ihl proto x packet loaded passed = ground arith

-- A run answers wherever the translation of each loaded value does.
module _ (t : TcContext) (c : PsidConfig) where
  egress_translate_ne_panic :
      ((x : ℕ) → (a : Option ℕ) × (egress_value c x ≡ ok a))
      → (ctx : t.Ctx) (f : Option Field) → egress_translate t c ctx f ≢ panic
  unfolding egress_translate rewrite
  egress_translate_ne_panic total ctx none = ground arith
  egress_translate_ne_panic total ctx (some f) = ground (arith, total f.value)

  egress_field_ne_panic :
      (ctx : t.Ctx) (l4_offset proto : ℕ) → egress_field t ctx l4_offset proto ≢ panic
  unfolding egress_field egress_icmp_field load_field
  egress_field_ne_panic ctx l4_offset proto = ground arith

  pub tc_egress_ne_panic :
      ((x : ℕ) → (a : Option ℕ) × (egress_value c x ≡ ok a))
      → (ctx : t.Ctx) → tc_egress t (some c) ctx ≢ panic
  unfolding tc_egress try_egress egress_configured
  tc_egress_ne_panic total ctx =
      grind (arith, egress_translate_ne_panic total, egress_field_ne_panic)

  ingress_field_loaded :
      (ctx : t.Ctx) (l4_offset proto : ℕ) (f : Field)
      → ingress_field t ctx l4_offset proto ≡ ok (some f)
      → t.load_u16 ctx f.port_pkt_offset ≡ some f.value
  unfolding ingress_field ingress_icmp_field load_field
  ingress_field_loaded ctx l4_offset proto f e = ground arith

  ingress_field_ne_panic :
      (ctx : t.Ctx) (l4_offset proto : ℕ) → ingress_field t ctx l4_offset proto ≢ panic
  unfolding ingress_field ingress_icmp_field load_field
  ingress_field_ne_panic ctx l4_offset proto = ground arith

  ingress_translate_ne_panic :
      LoadsWords t
      → ((x : ℕ) → x < 2 ^ 16 → (a : Option ℕ) × (ingress_value c x ≡ ok a))
      → (ctx : t.Ctx) (l4_offset proto : ℕ) (f : Option Field)
      → ingress_field t ctx l4_offset proto ≡ ok f
      → ingress_translate t c ctx f ≢ panic
  unfolding ingress_translate rewrite
  ingress_translate_ne_panic words total ctx l4_offset proto none e = ground arith
  ingress_translate_ne_panic words total ctx l4_offset proto (some f) e =
      let word =
        words ctx f.port_pkt_offset f.value (ingress_field_loaded ctx l4_offset proto f e) in
      ground (arith, total f.value word)

  pub tc_ingress_ne_panic :
      LoadsWords t
      → ((x : ℕ) → x < 2 ^ 16 → (a : Option ℕ) × (ingress_value c x ≡ ok a))
      → (ctx : t.Ctx) → tc_ingress t (some c) ctx ≢ panic
  unfolding tc_ingress try_ingress ingress_configured
  tc_ingress_ne_panic words total ctx =
      grind (arith, ingress_translate_ne_panic words total, ingress_field_ne_panic)

  -- Without an offset field both programs pass every packet.
  pub no_offset_passes :
      c.offset ≡ 0
      → (ctx : t.Ctx)
      → (tc_egress t (some c) ctx ≡ ok (t.tc_act_ok, ctx))
        × (tc_ingress t (some c) ctx ≡ ok (t.tc_act_ok, ctx))
  unfolding tc_ingress try_ingress ingress_configured tc_egress try_egress egress_configured
  no_offset_passes zero_offset ctx = ground arith

pub no_config_passes :
    (t : TcContext) (ctx : t.Ctx)
    → (tc_egress t none ctx ≡ ok (t.tc_act_ok, ctx))
      × (tc_ingress t none ctx ≡ ok (t.tc_act_ok, ctx))
unfolding tc_ingress try_ingress ingress_configured tc_egress try_egress egress_configured
no_config_passes t ctx = ground arith
