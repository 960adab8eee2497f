-- ===== src/Ebpf/Ingress.antt =====
-- mapecd-ebpf/src/ingress.rs on a whole packet.
use mapecd.Common.{
  ℕ, ◌+◌, ◌*◌, bit_and, true, false, ◌||◌, Option, none, some, ◌==◌, if◌then◌else◌, Res, ok, err,
  panic, ◌>>=◌,
}
use mapecd.Psid.{PsidConfig}
use mapecd.Ebpf.Context.{TcContext, or_err}
use mapecd.Ebpf.Port.{ingress_value}
use mapecd.Ebpf.Packet.{
  ipproto_tcp, ipproto_udp, ipproto_icmp, ipv4_ihl_offset, ipv4_proto_offset, icmp_type_offset,
  icmp_csum_offset, icmp_id_offset, Field, load_field, l4_csum_offset, rewrite,
}

abbrev pub icmp_echo_reply : ℕ
icmp_echo_reply = 0

abbrev pub l4_dst_port_offset : ℕ
l4_dst_port_offset = 2

module _ (t : TcContext) where
  open t use {Ctx, load_u8, tc_act_ok}

  -- The `IPPROTO_ICMP` arm: only an echo reply is translated.
  unfoldable pub ingress_icmp_field : Ctx → ℕ → Res Unit (Option Field)
  ingress_icmp_field ctx l4_offset = do
    type_byte ← or_err (load_u8 ctx (l4_offset + icmp_type_offset))
    if type_byte == icmp_echo_reply
        then load_field t ctx (l4_offset + icmp_id_offset) (l4_offset + icmp_csum_offset) true
        else ok none

  -- `match proto`; `none` is its early `return Ok(TC_ACT_OK)`.
  unfoldable pub ingress_field : Ctx → ℕ → ℕ → Res Unit (Option Field)
  ingress_field ctx l4_offset proto =
      if proto == ipproto_tcp || proto == ipproto_udp
      then load_field t ctx (l4_offset + l4_dst_port_offset) (l4_csum_offset l4_offset proto) false
      else if proto == ipproto_icmp
      then ingress_icmp_field ctx l4_offset
      else ok none

  -- From the loaded field to the end of the program.
  unfoldable pub ingress_translate : PsidConfig → Ctx → Option Field → Res Unit Ctx
  ingress_translate cfg ctx none = ok ctx
  ingress_translate cfg ctx (some f) = do
    translated ← ingress_value cfg f.value
    elim translated [ none ↦ ok ctx | some new_val ↦ rewrite t ctx f new_val ]

  -- From the read of CONFIG_MAP on.
  unfoldable pub ingress_configured : Option PsidConfig → Ctx → ℕ → ℕ → Res Unit Ctx
  ingress_configured none ctx l4_offset proto = ok ctx
  ingress_configured (some cfg) ctx l4_offset proto =
      if cfg.offset == 0
      then ok ctx
      else (ingress_field ctx l4_offset proto >>= λ f. ingress_translate cfg ctx f)

  -- The packet after a run that answers `TC_ACT_OK`; `err` is `Err(())`, with the packet unchanged.
  unfoldable pub try_ingress : Option PsidConfig → Ctx → Res Unit Ctx
  try_ingress config ctx = do
    ihl_byte ← or_err (load_u8 ctx ipv4_ihl_offset)
    let l4_offset = bit_and ihl_byte 0x0f * 4
    proto ← or_err (load_u8 ctx ipv4_proto_offset)
    ingress_configured config ctx l4_offset proto

  -- The program: its answer and the packet. An `Err(())` is answered by `TC_ACT_OK` as well.
  unfoldable pub tc_ingress : Option PsidConfig → Ctx → Res Unit (ℕ × Ctx)
  tc_ingress config ctx = elim (try_ingress config ctx) [
    | ok ctx' ↦ ok (tc_act_ok, ctx')
    | err _ ↦ ok (tc_act_ok, ctx)
    | panic ↦ panic
  ]
