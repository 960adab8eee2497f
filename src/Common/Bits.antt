-- ===== src/Common/Bits.antt =====
-- Shifts and masks as arithmetic, at every width. The native `bit_and` and `bit_or` are defined by
-- a recursion on binary digits; each law goes from one digit to the next.
use Prim.Native.Nat.{
  ℕ, zero, suc, ◌+◌, ◌-◌, ◌*◌, ◌/◌, ◌%◌, ◌^◌, ◌≤◌, ◌<◌, min, max, bit_and, bit_or, digits,
  bit_and-bitwise, bit_or-bitwise,
}
use mathlib.Core.Path.{◌≡◌, refl, ap, sym, ◌∙◌}
use native.Mathlib.Nat.{
  pow-suc, one-le-pow, mod-lt, mod-eq_of_lt, div-eq_of_lt, div-add-mod', div-div-eq-div-mul,
  add-mul-mod_self_right, mul-add-div_right,
}
use native.Mathlib.Omega.{arith}

-- Any fuel from the first argument on gives the same digits.
module _ (rest : ℕ → ℕ) (digit : ℕ → ℕ → ℕ) where
  digits_agree : (f g x y : ℕ) → x ≤ f → x ≤ g → digits rest digit f x y ≡ digits rest digit g x y
  digits_agree zero zero x y p q = refl
  digits_agree zero (suc g) zero y p q = refl
  digits_agree zero (suc g) (suc x) y p q = absurd (omega arith)
  digits_agree (suc f) zero zero y p q = refl
  digits_agree (suc f) zero (suc x) y p q = absurd (omega arith)
  digits_agree (suc f) (suc g) zero y p q = refl
  digits_agree (suc f) (suc g) (suc x) y p q =
      let tail = digits_agree f g (suc x / 2) (y / 2) (omega arith) (omega arith) in rw tail

-- The lowest digit of `x | y` and of `x & y`.
bit_or_digit : (x y : ℕ) → bit_or x y ≡ bit_or (x / 2) (y / 2) * 2 + max (x % 2) (y % 2)
bit_or_digit zero y = omega (arith, bit_or-bitwise 0 y, bit_or-bitwise 0 (y / 2))
bit_or_digit (suc x) y =
    let half = suc x / 2 in
    omega (
      arith,
      bit_or-bitwise (suc x) y,
      bit_or-bitwise half (y / 2),
      digits_agree (λ z. z) max x half half (y / 2) (omega arith) (omega arith),
    )

bit_and_digit : (x y : ℕ) → bit_and x y ≡ bit_and (x / 2) (y / 2) * 2 + min (x % 2) (y % 2)
bit_and_digit zero y = omega (arith, bit_and-bitwise 0 y, bit_and-bitwise 0 (y / 2))
bit_and_digit (suc x) y =
    let half = suc x / 2 in
    omega (
      arith,
      bit_and-bitwise (suc x) y,
      bit_and-bitwise half (y / 2),
      digits_agree (λ _. 0) min x half half (y / 2) (omega arith) (omega arith),
    )

-- With nothing on the right: induction on a bound of the left.
bit_or-zero_below : (bound x : ℕ) → x ≤ bound → bit_or x 0 ≡ x
bit_or-zero_below bound zero h = refl
bit_or-zero_below zero (suc x) h = absurd (omega arith)
bit_or-zero_below (suc bound) (suc x) h =
    omega (arith, bit_or_digit (suc x) 0, bit_or-zero_below bound (suc x / 2) (omega arith))

bit_and-zero_below : (bound x : ℕ) → x ≤ bound → bit_and x 0 ≡ 0
bit_and-zero_below bound zero h = refl
bit_and-zero_below zero (suc x) h = absurd (omega arith)
bit_and-zero_below (suc bound) (suc x) h =
    omega (arith, bit_and_digit (suc x) 0, bit_and-zero_below bound (suc x / 2) (omega arith))

pub bit_or-zero : (x : ℕ) → bit_or x 0 ≡ x
bit_or-zero x = bit_or-zero_below x x (omega arith)

pub bit_and-zero : (x : ℕ) → bit_and x 0 ≡ 0
bit_and-zero x = bit_and-zero_below x x (omega arith)

pub mul-pow-suc : (x k : ℕ) → x * 2 ^ suc k ≡ 2 * (x * 2 ^ k)
mul-pow-suc x k = omega (arith, ap (λ (t : ℕ). x * t) (pow-suc 2 k))

pub pow_pos : (k : ℕ) → 0 < 2 ^ k
pow_pos k = one-le-pow k 2 (omega arith)

-- `2 ^ (a + b)`; the libraries state it of the unary numbers only.
pub pow-add : (a b : ℕ) → 2 ^ (a + b) ≡ 2 ^ a * 2 ^ b
pow-add zero b =
    let e : 2 ^ (0 + b) ≡ 2 ^ b = ap (λ (t : ℕ). 2 ^ t) (omega arith) in omega (arith, e)
pow-add (suc a) b =
    let e : 2 ^ (suc a + b) ≡ 2 ^ suc (a + b) = ap (λ (t : ℕ). 2 ^ t) (omega arith) in
    omega (arith, e, pow-suc 2 (a + b), pow-add a b, ap (λ (t : ℕ). t * 2 ^ b) (pow-suc 2 a))

-- `(q << k) | r` is a sum where `r` has `k` bits.
pub bit_or_fields : (k q r : ℕ) → r < 2 ^ k → bit_or (q * 2 ^ k) r ≡ q * 2 ^ k + r
bit_or_fields zero q r h =
    let r_zero : r ≡ 0 = omega arith in rw r_zero (omega (arith, bit_or-zero (q * 2 ^ 0)))
bit_or_fields (suc k) q r h = ground (
  arith,
  bit_or_digit (q * 2 ^ suc k) r,
  mul-pow-suc q k,
  pow-suc 2 k,
  bit_or_fields k q (r / 2) (omega (arith, pow-suc 2 k)),
)

-- A number is read off its quotient and remainder.
pub mod_of_parts : (p q r : ℕ) → r < p → (q * p + r) % p ≡ r
mod_of_parts p q r h =
    let swap : q * p + r ≡ r + q * p = omega arith in
    rw swap (add-mul-mod_self_right r q p ∙ mod-eq_of_lt h)

pub div_of_parts : (p q r : ℕ) → r < p → (q * p + r) / p ≡ q
div_of_parts p q r h = omega (arith, mul-add-div_right {m = p} (omega arith) q r, div-eq_of_lt h)

mod-double : (p x : ℕ) → 0 < p → x % (2 * p) ≡ x / 2 % p * 2 + x % 2
mod-double p x pos =
    let low = x / 2 % p * 2 + x % 2 in
    let small = mod-lt (x / 2) {m = p} pos in
    let parts = mod_of_parts (2 * p) (x / 2 / p) low (omega arith) in
    let whole : x / 2 / p * (2 * p) + low ≡ x = omega (arith, div-add-mod' (x / 2) p) in
    rw whole at parts

-- `x & ((1 << k) - 1)` is a remainder.
pub bit_and_mask : (k x : ℕ) → bit_and x (2 ^ k - 1) ≡ x % 2 ^ k
bit_and_mask zero x = omega (arith, bit_and-zero x)
bit_and_mask (suc k) x =
    let half : (2 ^ suc k - 1) / 2 ≡ 2 ^ k - 1 = omega (arith, pow-suc 2 k, pow_pos k) in
    let step = bit_and_digit x (2 ^ suc k - 1) in
    let digits' : bit_and x (2 ^ suc k - 1) ≡ bit_and (x / 2) (2 ^ k - 1) * 2 + x % 2 =
      rw (← half) (omega (arith, step, pow-suc 2 k, pow_pos k)) in
    let doubled : 2 ^ suc k ≡ 2 * 2 ^ k = omega (arith, pow-suc 2 k) in
    let tail = mod-double (2 ^ k) x (pow_pos k) in
    rw (digits', bit_and_mask k (x / 2), doubled) (sym tail)

-- `x & (ones << s)` clears the lowest `s` bits and those above the mask.
pub bit_and_high_mask : (s n x : ℕ) → bit_and x ((2 ^ n - 1) * 2 ^ s) ≡ x / 2 ^ s % 2 ^ n * 2 ^ s
bit_and_high_mask zero n x =
    let one : (2 ^ n - 1) * 2 ^ 0 ≡ 2 ^ n - 1 = omega arith in
    let whole : x / 2 ^ 0 ≡ x = omega arith in rw (one, whole, bit_and_mask n x) (omega arith)
bit_and_high_mask (suc s) n x =
    let mask = 2 ^ n - 1 in
    let half : mask * 2 ^ suc s / 2 ≡ mask * 2 ^ s = omega (arith, mul-pow-suc mask s) in
    let step = bit_and_digit x (mask * 2 ^ suc s) in
    let digits' : bit_and x (mask * 2 ^ suc s) ≡ bit_and (x / 2) (mask * 2 ^ s) * 2 =
      rw (← half) (omega (arith, step, mul-pow-suc mask s)) in
    let deep : x / 2 ^ suc s ≡ x / 2 / 2 ^ s =
      rw div-div-eq-div-mul (ap (λ (t : ℕ). x / t) (omega (arith, pow-suc 2 s))) in
    rw (digits', bit_and_high_mask s n (x / 2), deep)
      (omega (arith, mul-pow-suc (x / 2 / 2 ^ s % 2 ^ n) s))
