-- ===== src/Psid/Geometry.antt =====
-- What the fields of a `PsidConfig` mean: the 16 bits of a port are an offset field, the PSID and
-- the place in a block, and the staging range holds one block for each nonzero offset.
use mathlib.Core.Path.{ap₂}
use mapecd.Common.{
  ℕ, zero, suc, ◌+◌, ◌-◌, ◌*◌, ◌^◌, ◌≤◌, ◌<◌, ◌≡◌, refl, ap, arith, ok, err, sym, ◌∙◌, ltb,
  Bool-cases, not-ltb→le, ◌==◌, if◌then◌else◌, inl, inr, ok-injective, pow-add, pow_pos, pow-suc,
  sub_checked, add_checked, mul_checked, shl_checked,
}
use native.Mathlib.Decide.{ℕ_discrete}
use mapecd.Psid.{PsidConfig, refused, try_new}

-- A configuration with an offset field, so that ports are translated.
pub record IsConfig (c : PsidConfig) : Type 0 where
  pub widths : c.offset + (c.length + c.block_shift) ≡ 16
  pub has_offset : 1 ≤ c.offset
  pub psid_fits : c.psid < 2 ^ c.length
  pub min_value : c.staging_min ≡ 2 ^ c.length * 2 ^ c.block_shift
  pub max_value : c.staging_max + 1 ≡ c.staging_min + (2 ^ c.offset - 1) * 2 ^ c.block_shift

-- The three fields fill the port.
pub three_fields : (o l b : ℕ) → o + (l + b) ≡ 16 → 2 ^ o * (2 ^ l * 2 ^ b) ≡ 65536
three_fields o l b e =
    let whole : 2 ^ (o + (l + b)) ≡ 2 ^ 16 = ap (λ (t : ℕ). 2 ^ t) e in
    rw (pow-add o (l + b), pow-add l b) at whole

-- The offset field stands above the PSID and the place in the block.
pub above_offset : (o l b : ℕ) → o + (l + b) ≡ 16 → 2 ^ (16 - o) ≡ 2 ^ l * 2 ^ b
above_offset o l b e =
    let rest : 2 ^ (16 - o) ≡ 2 ^ (l + b) = ap (λ (t : ℕ). 2 ^ t) (omega arith) in
    rw pow-add at rest

factor_le : (x y n : ℕ) → 0 < y → x * y ≡ n → x ≤ n
factor_le x (suc y) n pos e = omega arith
factor_le x zero n pos e = absurd (omega arith)

-- One block for each nonzero offset fits behind the excluded ports.
blocks_fit : (o l b : ℕ) → 0 < o → 0 < l → l * b + (o - 1) * b ≤ o * (l * b)
blocks_fit o l b ho hl =
    let o_up : o ≡ o - 1 + 1 = omega arith in
    let l_up : l ≡ l - 1 + 1 = omega arith in
    let all : o * (l * b) ≡ (o - 1 + 1) * ((l - 1 + 1) * b) =
      ap₂ (λ (s t : ℕ). s * (t * b)) o_up l_up in
    omega (arith, all, ap (λ (t : ℕ). t * b) l_up)

-- The sizes that the arithmetic of the programs meets, for a port of three fields.
pub record Sizes (o l b : ℕ) : Type 0 where
  pub product : 2 ^ o * (2 ^ l * 2 ^ b) ≡ 65536
  pub above : 2 ^ (16 - o) ≡ 2 ^ l * 2 ^ b
  pub half : 2 * (2 ^ l * 2 ^ b) ≤ 65536
  pub offsets : 2 ^ o ≤ 65536
  pub psids : 2 ^ l ≤ 32768
  pub block : 2 ^ b ≤ 32768
  pub fit : 2 ^ l * 2 ^ b + (2 ^ o - 1) * 2 ^ b ≤ 65536
  pub some_offset : 2 ≤ 2 ^ o
  pub some_psid : 0 < 2 ^ l
  pub some_place : 0 < 2 ^ b

pub sizes : (o l b : ℕ) → 1 ≤ o → o + (l + b) ≡ 16 → Sizes o l b
sizes o l b has e =
    let product = three_fields o l b e in
    let one : 2 ^ o ≡ 2 ^ suc (o - 1) = ap (λ (t : ℕ). 2 ^ t) (omega arith) in
    let two : 2 ≤ 2 ^ o = omega (arith, one, pow-suc 2 (o - 1), pow_pos (o - 1)) in
    let room : 0 < 2 ^ l * 2 ^ b = grind (arith, pow_pos l, pow_pos b) in
    let half : 2 * (2 ^ l * 2 ^ b) ≤ 65536 = grind arith in
    record {
      product = product;
      above = above_offset o l b e;
      half = half;
      offsets = factor_le (2 ^ o) (2 ^ l * 2 ^ b) 65536 room product;
      psids = omega (arith, factor_le (2 ^ l) (2 ^ b) (2 ^ l * 2 ^ b) (pow_pos b) refl);
      block = omega (arith, factor_le (2 ^ b) (2 ^ l) (2 ^ l * 2 ^ b) (pow_pos l) (omega arith));
      fit = omega (arith, product, blocks_fit (2 ^ o) (2 ^ l) (2 ^ b) (pow_pos o) (pow_pos l));
      some_offset = two;
      some_psid = pow_pos l;
      some_place = pow_pos b;
    }

-- What `try_new` computes for a nonzero offset.
unfoldable pub expected : ℕ → ℕ → ℕ → PsidConfig
expected o l p = record {
  offset = o;
  length = l;
  block_shift = 16 - o - l;
  psid = p;
  staging_min = 2 ^ (16 - o);
  staging_max = 2 ^ (16 - o) + (2 ^ o - 1) * 2 ^ (16 - o - l) - 1;
}

pub try_new-expected : (o l p : ℕ) → 1 ≤ o → o + l ≤ 16 → try_new o l p ≡ ok (expected o l p)
unfolding try_new expected sub_checked add_checked mul_checked shl_checked
try_new-expected o l p has fits = let s = sizes o l (16 - o - l) has (omega arith) in ground arith

-- For a nonzero offset and a PSID of its width the configuration is well formed.
pub expected-IsConfig : (o l p : ℕ) → 1 ≤ o → o + l ≤ 16 → p < 2 ^ l → IsConfig (expected o l p)
unfolding expected
expected-IsConfig o l p has fits small =
    let s = sizes o l (16 - o - l) has (omega arith) in
    record {
      widths = omega arith;
      has_offset = has;
      psid_fits = small;
      min_value = s.above;
      max_value = omega (arith, pow_pos (16 - o));
    }

-- The configuration for the offset 0, under which the programs pass every packet.
abbrev pub pass_all : ℕ → ℕ → PsidConfig
pass_all l p = record {
  offset = 0;
  length = l;
  block_shift = 0;
  psid = p;
  staging_min = 1;
  staging_max = 65535;
}

-- What `PsidConfig::try_new` answers on every input: a refusal exactly where the two widths do not
-- fit a port, and otherwise a configuration; it never panics. With an offset field the
-- configuration is `expected`, and without one the staging range is every port but 0.
pub try_new_answers :
    (o l p : ℕ)
    → try_new o l p ≡ (
        if ltb 16 (o + l)
        then err refused
        else if o == 0
        then ok (pass_all l p)
        else ok (expected o l p))
unfolding try_new
try_new_answers o l p = elim (Bool-cases (ltb 16 (o + l))) [
  | inl big ↦ rw big refl
  | inr fits ↦ rw fits (elim (ℕ_discrete o 0) [
    | yes none_left ↦ ground arith
    | no some_bits ↦
        let made = try_new-expected o l p (omega arith) (not-ltb→le 16 (o + l) fits) in ground arith
  ])
]

pub try_new-eq-ok :
    (o l p : ℕ) {c : PsidConfig}
    → 1 ≤ o
    → try_new o l p ≡ ok c
    → (o + l ≤ 16) × (c ≡ expected o l p)
try_new-eq-ok o l p has e = elim (Bool-cases (ltb 16 (o + l))) [
  | inl big ↦ let refusal = rw big at (try_new_answers o l p) in absurd cc
  | inr fits ↦
      let small_widths = not-ltb→le 16 (o + l) fits in
      (small_widths, ok-injective (sym e ∙ try_new-expected o l p has small_widths))
]

pub try_new-IsConfig :
    (o l p : ℕ) {c : PsidConfig} → 1 ≤ o → p < 2 ^ l → try_new o l p ≡ ok c → IsConfig c
try_new-IsConfig o l p has small made =
    let (fits, same) = try_new-eq-ok o l p has made in
    rw same (expected-IsConfig o l p has fits small)

pub try_new_zero : (l p : ℕ) {c : PsidConfig} → try_new 0 l p ≡ ok c → c.offset ≡ 0
unfolding try_new
try_new_zero l p made = ground arith
