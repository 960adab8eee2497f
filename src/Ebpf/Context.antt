-- ===== src/Ebpf/Context.antt =====
-- What the TC programs use of aya-ebpf: the packet buffer of a `TcContext`, the checksum helper
-- and two constants. They are a parameter of the programs.
use mapecd.Common.{ℕ, ◌+◌, ◌*◌, ◌^◌, ◌<◌, ◌≡◌, Option, none, some, Res, ok, err}

pub record TcContext : Type 1 where
  pub Ctx : Type 0
  -- `ctx.load::<u8>` and `ctx.load::<u16>`
  pub load_u8 : Ctx → ℕ → Option ℕ
  pub load_u16 : Ctx → ℕ → Option ℕ
  -- `ctx.store::<u16>` with no flags
  pub store_u16 : Ctx → ℕ → ℕ → Option Ctx
  -- `ctx.l4_csum_replace(offset, from, to, flags)`
  pub l4_csum_replace : Ctx → ℕ → ℕ → ℕ → ℕ → Option Ctx
  pub bpf_f_pseudo_hdr : ℕ
  pub tc_act_ok : ℕ

-- `ctx.load` copies the bytes of the packet, and the target is little-endian: the first byte of a
-- `u16` is its low one.
pub record IsLittleEndian (t : TcContext) : Type 0 where
  pub loads :
      (ctx : t.Ctx) (offset low high : ℕ)
      → t.load_u8 ctx offset ≡ some low
      → t.load_u8 ctx (offset + 1) ≡ some high
      → t.load_u16 ctx offset ≡ some (low + 256 * high)
  pub bytes : (ctx : t.Ctx) (offset byte : ℕ) → t.load_u8 ctx offset ≡ some byte → byte < 256

-- A loaded `u16` has 16 bits.
abbrev pub LoadsWords : TcContext → Type 0
LoadsWords t = (ctx : t.Ctx) (offset x : ℕ) → t.load_u16 ctx offset ≡ some x → x < 2 ^ 16

-- `.map_err(|_| ())?`
abbrev pub or_err : {A : Type 0} → Option A → Res Unit A
or_err none = err tt
or_err (some a) = ok a
