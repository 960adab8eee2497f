-- ===== src/Map/Calc/Layout.antt =====
-- Where `build_ce_ipv6` (src/map/calc.rs) puts the bits, in both formats.
use mapecd.Common.{
  ℕ, zero, suc, bit_and-zero, ◌+◌, ◌-◌, ◌*◌, ◌/◌, ◌%◌, ◌^◌, ◌≤◌, ◌<◌, ◌≡◌, ◌≢◌, refl, ap, sym, ◌∙◌,
  arith, ok, bit_and, bit_or, bit_or_fields, bit_and_high_mask, mod_of_parts, pow_pos, pow-add,
  sub_checked, shl_checked,
}
use native.Mathlib.Nat.{mod-eq_of_lt, div-lt_iff_lt-mul}
use native.Mathlib.Decide.{ℕ_discrete}
use mapecd.Map.Calc.{prefix_mask_of, place_psid, build_rfc7597, octet, place_v6plus, build_v6plus}

mask_cut :
    (ones s : ℕ)
    → 0 < ones
    → 0 < s
    → ones * s ≡ 2 ^ 128
    → (2 ^ 128 - 1) * s % 2 ^ 128 ≡ (ones - 1) * s
mask_cut ones s h h' whole =
    let up : ones ≡ ones - 1 + 1 = omega arith in
    let less : ones * s ≡ (ones - 1) * s + s = omega (arith, ap (λ (t : ℕ). t * s) up) in
    let parts = mod_of_parts (2 ^ 128) (s - 1) ((ones - 1) * s) (omega arith) in
    let same : (s - 1) * 2 ^ 128 + (ones - 1) * s ≡ (2 ^ 128 - 1) * s = omega arith in
    rw same at parts

-- Ones in the leading `n` bits of 128.
prefix_mask_of_value :
    (n : ℕ) → n ≤ 128 → n ≢ 0 → prefix_mask_of n ≡ ok ((2 ^ n - 1) * 2 ^ (128 - n))
unfolding prefix_mask_of sub_checked shl_checked
prefix_mask_of_value n h some_bits =
    let s = 2 ^ (128 - n) in
    let sum : n + (128 - n) ≡ 128 = omega arith in
    let whole : 2 ^ n * s ≡ 2 ^ 128 = sym (pow-add n (128 - n)) ∙ ap (λ (t : ℕ). 2 ^ t) sum in
    let s_pos = pow_pos (128 - n) in
    let cut : (2 ^ 128 - 1) * s % 2 ^ 128 ≡ (2 ^ n - 1) * s =
      mask_cut (2 ^ n) s (pow_pos n) s_pos whole in
    ground arith

pub prefix_part :
    (n addr : ℕ)
    → n ≤ 128
    → addr < 2 ^ 128
    → (mask : ℕ) × (prefix_mask_of n ≡ ok mask)
      × (bit_and addr mask ≡ addr / 2 ^ (128 - n) * 2 ^ (128 - n))
unfolding prefix_mask_of
prefix_part zero addr h fits = (0, refl, bit_and-zero addr ∙ omega arith)
prefix_part (suc n) addr h fits =
    let s = 128 - suc n in
    let sum : suc n + s ≡ 128 = omega arith in
    let whole : 2 ^ suc n * 2 ^ s ≡ 2 ^ 128 = sym (pow-add (suc n) s) ∙ ap (λ (t : ℕ). 2 ^ t) sum in
    let below : addr / 2 ^ s < 2 ^ suc n = (div-lt_iff_lt-mul (pow_pos s)).1 (omega arith) in
    (
      (2 ^ suc n - 1) * 2 ^ s,
      prefix_mask_of_value (suc n) h (omega arith),
      bit_and_high_mask s (suc n) addr ∙ ap (λ (t : ℕ). t * 2 ^ s) (mod-eq_of_lt below),
    )

psid_field : (psid k : ℕ) → psid < 2 ^ k → k ≤ 16 → psid * 2 ^ (16 - k) < 2 ^ 16
psid_field psid k p hk =
    let sum : k + (16 - k) ≡ 16 = omega arith in
    let whole : 2 ^ k * 2 ^ (16 - k) ≡ 2 ^ 16 =
      sym (pow-add k (16 - k)) ∙ ap (λ (t : ℕ). 2 ^ t) sum in
    let room = pow_pos (16 - k) in grind arith

-- RFC 7597, 5.2: the IPv4 address in bits 80 to 111, the PSID to the left in the last 16.
pub build_rfc7597_value :
    (g ipv4 psid k : ℕ)
    → ipv4 < 2 ^ 32
    → psid < 2 ^ k
    → k ≤ 16
    → build_rfc7597 (g * 2 ^ 64) ipv4 psid k ≡ ok (g * 2 ^ 64 + ipv4 * 2 ^ 16 + psid * 2 ^ (16 - k))
unfolding build_rfc7597 place_psid sub_checked shl_checked
build_rfc7597_value g ipv4 psid k h p hk =
    let first : bit_or (g * 2 ^ 64) (ipv4 * 2 ^ 16) ≡ (g * 2 ^ 48 + ipv4) * 2 ^ 16 =
      bit_or_fields 64 g (ipv4 * 2 ^ 16) (omega arith) ∙ omega arith in
    let fits = psid_field psid k p hk in
    let second = bit_or_fields 16 (g * 2 ^ 48 + ipv4) (psid * 2 ^ (16 - k)) fits in
    elim (ℕ_discrete k 0) [
      | yes zero_bits ↦
          let one : 2 ^ k ≡ 1 = ap (λ (t : ℕ). 2 ^ t) zero_bits in
          let none_left : psid ≡ 0 = omega arith in rw (none_left, zero_bits) (ground arith)
      | no some_bits ↦ ground arith
    ]

-- The v6plus layout: the octets of the address from bit 72 on, the PSID in bits 112 to 119.
pub build_v6plus_value :
    (g ipv4 psid n : ℕ)
    → ipv4 < 2 ^ 32
    → psid < 2 ^ 8
    → n ≤ 64
    → build_v6plus (g * 2 ^ 64) ipv4 psid n 8
      ≡ ok (
          g * 2 ^ 64
          + octet ipv4 0 * 2 ^ 48
          + octet ipv4 1 * 2 ^ 40
          + octet ipv4 2 * 2 ^ 32
          + octet ipv4 3 * 2 ^ 24
          + psid * 2 ^ 8)
unfolding build_v6plus place_v6plus octet shl_checked
build_v6plus_value g ipv4 psid n h p hn =
    let o0 = ipv4 / 2 ^ 24 % 2 ^ 8 in
    let o1 = ipv4 / 2 ^ 16 % 2 ^ 8 in
    let o2 = ipv4 / 2 ^ 8 % 2 ^ 8 in
    let o3 = ipv4 % 2 ^ 8 in
    let pair : bit_or (o1 * 2 ^ 8) o2 ≡ o1 * 2 ^ 8 + o2 = bit_or_fields 8 o1 o2 (omega arith) in
    let top : bit_or (g * 2 ^ 64) (o0 * 2 ^ 48) ≡ (g * 2 ^ 16 + o0) * 2 ^ 48 =
      bit_or_fields 64 g (o0 * 2 ^ 48) (omega arith) ∙ omega arith in
    let middle : bit_or ((g * 2 ^ 16 + o0) * 2 ^ 48) ((o1 * 2 ^ 8 + o2) * 2 ^ 32)
        ≡ ((g * 2 ^ 16 + o0) * 2 ^ 16 + o1 * 2 ^ 8 + o2) * 2 ^ 32 =
      bit_or_fields 48 (g * 2 ^ 16 + o0) ((o1 * 2 ^ 8 + o2) * 2 ^ 32) (omega arith) ∙ omega arith in
    let high = (g * 2 ^ 16 + o0) * 2 ^ 16 + o1 * 2 ^ 8 + o2 in
    let fourth : bit_or (high * 2 ^ 32) (o3 * 2 ^ 24) ≡ (high * 2 ^ 8 + o3) * 2 ^ 24 =
      bit_or_fields 32 high (o3 * 2 ^ 24) (omega arith) ∙ omega arith in
    let last = bit_or_fields 24 (high * 2 ^ 8 + o3) (psid * 2 ^ 8) (omega arith) in ground arith
