-- ===== src/Common/Outcome.antt =====
-- What a Rust function returns: a value, an error value, or a panic. Arithmetic that leaves its
-- width, and a shift by the width or more, panic, as in a build with overflow checks.
use Prim.Native.Nat.{ℕ, ◌+◌, ◌-◌, ◌*◌, ◌/◌, ◌%◌, ◌^◌, ◌≤◌, ◌<◌}
use mathlib.Core.Path.{◌≡◌, refl}
use mathlib.Core.Logic.{◌⊎◌, inl, inr}
use native.Mathlib.Omega.{arith}
use mapecd.Common.Tests.{ltb, if◌then◌else◌}

pub data Res (E A : Type 0) : Type 0 where
  ok : A → Res E A
  err : E → Res E A
  panic : Res E A

pub ok-injective : {E A : Type 0} {x y : A} → Path (Res E A) (ok x) (ok y) → x ≡ y
ok-injective h = cc

-- `?`: an error and a panic end the function.
infixl 5 ◌>>=◌
abbrev pub ◌>>=◌ : {E A B : Type 0} → Res E A → (A → Res E B) → Res E B
panic >>= next = panic
err e >>= next = err e
ok value >>= next = next value

-- `x + y`, `x - y` and `x * y` at a width of `w` bits.
unfoldable pub add_checked : {E : Type 0} → ℕ → ℕ → ℕ → Res E ℕ
add_checked w x y = if ltb (x + y) (2 ^ w) then ok (x + y) else panic

unfoldable pub sub_checked : {E : Type 0} → ℕ → ℕ → Res E ℕ
sub_checked x y = if ltb x y then panic else ok (x - y)

unfoldable pub mul_checked : {E : Type 0} → ℕ → ℕ → ℕ → Res E ℕ
mul_checked w x y = if ltb (x * y) (2 ^ w) then ok (x * y) else panic

-- `x << n` and `x >> n` at a width of `w` bits: the amount is checked, the bits shifted out are not.
unfoldable pub shl_checked : {E : Type 0} → ℕ → ℕ → ℕ → Res E ℕ
shl_checked w x n = if ltb n w then ok (x * 2 ^ n % 2 ^ w) else panic

unfoldable pub shr_checked : {E : Type 0} → ℕ → ℕ → ℕ → Res E ℕ
shr_checked w x n = if ltb n w then ok (x / 2 ^ n) else panic

module _ {E : Type 0} where
  pub add_checked_fits : (w x y : ℕ) → x + y < 2 ^ w → add_checked {E = E} w x y ≡ ok (x + y)
  unfolding add_checked
  add_checked_fits w x y h = ground arith

  pub sub_checked_fits : (x y : ℕ) → y ≤ x → sub_checked {E = E} x y ≡ ok (x - y)
  unfolding sub_checked
  sub_checked_fits x y h = ground arith

  pub mul_checked_fits : (w x y : ℕ) → x * y < 2 ^ w → mul_checked {E = E} w x y ≡ ok (x * y)
  unfolding mul_checked
  mul_checked_fits w x y h = ground arith

  pub shl_checked_fits : (w x n : ℕ) → n < w → shl_checked {E = E} w x n ≡ ok (x * 2 ^ n % 2 ^ w)
  unfolding shl_checked
  shl_checked_fits w x n h = ground arith

  pub shr_checked_fits : (w x n : ℕ) → n < w → shr_checked {E = E} w x n ≡ ok (x / 2 ^ n)
  unfolding shr_checked
  shr_checked_fits w x n h = ground arith

pub Res-cases :
    {E A : Type 0} (r : Res E A) → ((a : A) × (r ≡ ok a)) ⊎ ((e : E) × (r ≡ err e)) ⊎ (r ≡ panic)
Res-cases (ok a) = inl (a, refl)
Res-cases (err e) = inr (inl (e, refl))
Res-cases panic = inr (inr refl)

pub ok-ne-panic : {E A : Type 0} {a : A} → Path (Res E A) (ok a) panic → ⊥
ok-ne-panic h = cc
