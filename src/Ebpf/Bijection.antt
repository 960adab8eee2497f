-- ===== src/Ebpf/Bijection.antt =====
-- The two translations are inverse to one another, between the staging range and the ports that
-- RFC 7597 gives to this PSID.
use mapecd.Common.{
  if◌then◌else◌, ◌==◌, ◌>>=◌, ℕ, ◌+◌, ◌-◌, ◌*◌, ◌/◌, ◌%◌, ◌^◌, ◌≤◌, ◌<◌, ◌≡◌, ◌≢◌, ◌⊎◌, ap, ◌∙◌,
  arith, ok, some, none, bit_and, bit_and_mask, bit_or_fields, div_of_parts, mod_of_parts,
  sub_checked, add_checked, shl_checked, shr_checked,
}
use mapecd.Psid.{PsidConfig}
use mapecd.Psid.Geometry.{IsConfig, Sizes, sizes}
use mapecd.Ebpf.Port.{
  block_mask, staging_to_psid, psid_to_staging, own_psid_to_staging, ingress_value,
}

-- The port of offset `r`, this PSID and place `j` (RFC 7597, 5.1).
abbrev pub port_of : PsidConfig → ℕ → ℕ → ℕ
port_of c r j = r * 2 ^ (16 - c.offset) + c.psid * 2 ^ c.block_shift + j

-- The staging value of offset `r` and place `j`.
abbrev pub staging_of : PsidConfig → ℕ → ℕ → ℕ
staging_of c r j = c.staging_min + (r - 1) * 2 ^ c.block_shift + j

-- The three fields of a port, over any sizes.
module _ (l b r p j : ℕ) (pl : p < l) (jb : j < b) where
  port_value : r * (l * b) + p * b + j ≡ (r * l + p) * b + j
  port_value = omega arith

  port_place : (r * (l * b) + p * b + j) % b ≡ j
  port_place = rw port_value (mod_of_parts b (r * l + p) j jb)

  pub port_psid : (r * (l * b) + p * b + j) / b % l ≡ p
  port_psid = rw (port_value, div_of_parts b (r * l + p) j jb) (mod_of_parts l r p pl)

  low_fits : p * b + j < l * b
  low_fits = grind arith

  port_offset : (r * (l * b) + p * b + j) / (l * b) ≡ r
  port_offset =
      let assoc : r * (l * b) + p * b + j ≡ r * (l * b) + (p * b + j) = omega arith in
      rw assoc (div_of_parts (l * b) r (p * b + j) low_fits)

high_fits : (r o n : ℕ) → r < o → o * n ≡ 65536 → r * n + n ≤ 65536
high_fits r o n h e = grind arith

module _ (c : PsidConfig) (v : IsConfig c) where
  pub config-Sizes : Sizes c.offset c.length c.block_shift
  config-Sizes = sizes c.offset c.length c.block_shift v.has_offset v.widths

  mask_value : block_mask c ≡ ok (2 ^ c.block_shift - 1)
  unfolding block_mask shl_checked
  mask_value = let s = config-Sizes in ground arith

  -- What the sums of the programs come to, for an offset `r` and a place `j` in range.
  record Fields (r j : ℕ) : Type 0 where
    high : r * 2 ^ (16 - c.offset) ≡ r * (2 ^ c.length * 2 ^ c.block_shift)
    high_le : r * (2 ^ c.length * 2 ^ c.block_shift) + 2 ^ c.length * 2 ^ c.block_shift ≤ 65536
    middle : c.psid * 2 ^ c.block_shift + j < 2 ^ c.length * 2 ^ c.block_shift
    index : staging_of c r j - c.staging_min ≡ (r - 1) * 2 ^ c.block_shift + j
    index_block : ((r - 1) * 2 ^ c.block_shift + j) / 2 ^ c.block_shift ≡ r - 1
    index_place : bit_and ((r - 1) * 2 ^ c.block_shift + j) (2 ^ c.block_shift - 1) ≡ j

  fields : (r j : ℕ) → 1 ≤ r → r < 2 ^ c.offset → j < 2 ^ c.block_shift → Fields r j
  fields r j hr hR hj =
      let s = config-Sizes in
      record {
        high = ap (λ (t : ℕ). r * t) s.above;
        high_le = high_fits r (2 ^ c.offset) (2 ^ c.length * 2 ^ c.block_shift) hR s.product;
        middle = low_fits (2 ^ c.length) (2 ^ c.block_shift) r c.psid j v.psid_fits hj;
        index = omega arith;
        index_block = div_of_parts (2 ^ c.block_shift) (r - 1) j hj;
        index_place =
            bit_and_mask c.block_shift ((r - 1) * 2 ^ c.block_shift + j)
            ∙ mod_of_parts (2 ^ c.block_shift) (r - 1) j hj;
      }

  pub port_fits :
      (r j : ℕ) → 1 ≤ r → r < 2 ^ c.offset → j < 2 ^ c.block_shift → port_of c r j < 2 ^ 16
  port_fits r j hr hR hj = let f = fields r j hr hR hj in omega (arith, f.high, f.high_le, f.middle)

  pub staging_to_psid-staging_of :
      (r j : ℕ)
      → 1 ≤ r
      → r < 2 ^ c.offset
      → j < 2 ^ c.block_shift
      → staging_to_psid c (staging_of c r j) ≡ ok (port_of c r j)
  unfolding staging_to_psid shl_checked shr_checked sub_checked add_checked
  staging_to_psid-staging_of r j hr hR hj =
      let s = config-Sizes in
      let f = fields r j hr hR hj in
      let le_min : c.staging_min ≤ staging_of c r j = omega arith in
      rw (mask_value)
        (ground (arith, f.high, f.high_le, f.middle, f.index, f.index_block, f.index_place))

  psid_to_staging_own :
      (x r j : ℕ)
      → 1 ≤ r
      → r < 2 ^ c.offset
      → j < 2 ^ c.block_shift
      → bit_and x (2 ^ c.block_shift - 1) ≡ j
      → psid_to_staging c (2 ^ c.block_shift - 1) r x ≡ ok (staging_of c r j)
  unfolding psid_to_staging shl_checked sub_checked add_checked
  psid_to_staging_own x r j hr hR hj place =
      let s = config-Sizes in
      let below : (r - 1) * 2 ^ c.block_shift + 2 ^ c.block_shift
          ≤ (2 ^ c.offset - 1) * 2 ^ c.block_shift =
        grind arith in
      rw place (ground (arith, bit_or_fields c.block_shift (r - 1) j hj))

  psid_test :
      (mask r x : ℕ)
      → own_psid_to_staging c mask r x ≡ (
          if bit_and (x / 2 ^ c.block_shift) (2 ^ c.length - 1) == c.psid
          then (psid_to_staging c mask r x >>= λ staging_val. ok (some staging_val))
          else ok none)
  unfolding own_psid_to_staging shl_checked shr_checked sub_checked
  psid_test mask r x = let s = config-Sizes in ground arith

  -- `try_ingress` on a value whose fields are known.
  ingress_value_own :
      (x r j : ℕ)
      → 1 ≤ r
      → r < 2 ^ c.offset
      → j < 2 ^ c.block_shift
      → x / 2 ^ (16 - c.offset) ≡ r
      → bit_and (x / 2 ^ c.block_shift) (2 ^ c.length - 1) ≡ c.psid
      → bit_and x (2 ^ c.block_shift - 1) ≡ j
      → ingress_value c x ≡ ok (some (staging_of c r j))
  unfolding ingress_value shr_checked sub_checked
  ingress_value_own x r j hr hR hj offset own place =
      let s = config-Sizes in
      rw mask_value (
        ground
          (arith, psid_test (2 ^ c.block_shift - 1) r x, psid_to_staging_own x r j hr hR hj place))

  -- `try_ingress` passes a value of the excluded block or of another PSID.
  pub ingress_value_other :
      (x : ℕ)
      → (x / 2 ^ (16 - c.offset) ≡ 0)
        ⊎ (bit_and (x / 2 ^ c.block_shift) (2 ^ c.length - 1) ≢ c.psid)
      → ingress_value c x ≡ ok none
  unfolding ingress_value shr_checked sub_checked
  ingress_value_other x h =
      let s = config-Sizes in
      rw mask_value (ground (arith, psid_test (2 ^ c.block_shift - 1) (x / 2 ^ (16 - c.offset)) x))

  -- The other direction, for a port of this PSID.
  pub ingress_value-port_of :
      (r j : ℕ)
      → 1 ≤ r
      → r < 2 ^ c.offset
      → j < 2 ^ c.block_shift
      → ingress_value c (port_of c r j) ≡ ok (some (staging_of c r j))
  ingress_value-port_of r j hr hR hj =
      let s = config-Sizes in
      let f = fields r j hr hR hj in
      let b = 2 ^ c.block_shift in
      let l = 2 ^ c.length in
      let value : port_of c r j ≡ r * (l * b) + c.psid * b + j = omega (arith, f.high) in
      let offset : port_of c r j / 2 ^ (16 - c.offset) ≡ r =
        rw (value, s.above) (port_offset l b r c.psid j v.psid_fits hj) in
      let own : bit_and (port_of c r j / b) (l - 1) ≡ c.psid =
        bit_and_mask c.length (port_of c r j / b)
        ∙ rw value (port_psid l b r c.psid j v.psid_fits hj) in
      let place : bit_and (port_of c r j) (b - 1) ≡ j =
        bit_and_mask c.block_shift (port_of c r j)
        ∙ rw value (port_place l b r c.psid j v.psid_fits hj) in
      ingress_value_own (port_of c r j) r j hr hR hj offset own place
