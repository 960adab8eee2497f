-- ===== src/Map/PortSet/Ports.antt =====
-- Which ports `calc_port_ranges` lists, how many, and in which order.
use mapecd.Common.{
  Has, ℕ, zero, suc, ◌+◌, ◌-◌, ◌*◌, ◌^◌, ◌≤◌, ◌<◌, ◌≡◌, ◌↔◌, ◌⊎◌, inl, inr, refl, ap, sym, ◌∙◌,
  List, [], ◌∷◌, ◌++◌, arith, All, length, length-append, ok, pow-add, pow_pos, sub_checked,
  shl_checked,
}
use native.Mathlib.Nat.{mod-eq_of_lt, pow-le-pow_right}
use native.Mathlib.Decide.{ℕ_discrete}
use mapecd.Map.PortSet.{port, ports_of_r, ports_from, merge, calc_port_ranges}

-- Strictly ascending, from `low` on.
abbrev pub IsAscending : ℕ → List ℕ → Type 0
IsAscending low [] = Unit
IsAscending low (x ∷ xs) = (low ≤ x) × IsAscending (x + 1) xs

Has-append : (p : ℕ) (xs ys : List ℕ) → Has p (xs ++ ys) ↔ (Has p xs ⊎ Has p ys)
Has-append p [] ys = (λ h. inr h, λ h. elim h [ inl e ↦ absurd e | inr m ↦ m ])
Has-append p (x ∷ xs) ys =
    let rest = Has-append p xs ys in
    (
      λ h. elim h [
        | inl e ↦ inl (inl e)
        | inr m ↦ elim (rest.0 m) [ inl l ↦ inl (inr l) | inr r ↦ inr r ]
      ],
      λ h. elim h [
        | inl l ↦ elim l [ inl e ↦ inl e | inr m ↦ inr (rest.1 (inl m)) ]
        | inr r ↦ inr (rest.1 (inr r))
      ],
    )

-- Port(R, j) as the source's comment states it.
abbrev pub formula : ℕ → ℕ → ℕ → ℕ → ℕ → ℕ
formula a k psid r j = r * 2 ^ (a + k) + j * 2 ^ k + psid

-- The sizes of the fields, for a PSID of its width.
pub record Widths (a k psid : ℕ) : Type 0 where
  pub fits : a + k ≤ 16
  pub psid_fits : psid < 2 ^ k

module _ (a k psid : ℕ) (w : Widths a k psid) where
  product : 2 ^ (16 - a - k) * 2 ^ (a + k) ≡ 65536
  product =
      let sum : 16 - a - k + (a + k) ≡ 16 = omega (arith, w.fits) in
      let whole : 2 ^ (16 - a - k + (a + k)) ≡ 2 ^ 16 = ap (λ (t : ℕ). 2 ^ t) sum in
      rw pow-add at whole

  row : (j : ℕ) → j < 2 ^ a → j * 2 ^ k + 2 ^ k ≤ 2 ^ (a + k)
  row j h = rw (pow-add a k) (grind arith)

  formula_fits : (r j : ℕ) → r < 2 ^ (16 - a - k) → j < 2 ^ a → formula a k psid r j < 2 ^ 16
  formula_fits r j hr hj =
      let below : r * 2 ^ (a + k) + 2 ^ (a + k) ≤ 65536 = grind (arith, product) in
      omega (arith, row j hj, w.psid_fits)

  port-formula :
      (r j : ℕ) → r < 2 ^ (16 - a - k) → j < 2 ^ a → port a k psid r j ≡ formula a k psid r j
  unfolding port
  port-formula r j hr hj = mod-eq_of_lt (formula_fits r j hr hj)

  Has-row :
      (p r left j : ℕ)
      → r < 2 ^ (16 - a - k)
      → j + left ≤ 2 ^ a
      → Has p (ports_of_r a k psid r left j)
        ↔ ((i : ℕ) × (j ≤ i) × (i < j + left) × (p ≡ formula a k psid r i))
  unfolding ports_of_r
  Has-row p r zero j hr h = (λ e. absurd e, λ (i, lo, hi, e). absurd (omega arith))
  Has-row p r (suc left) j hr h =
      let rest = Has-row p r left (j + 1) hr (omega arith) in
      let first = port-formula r j hr (omega arith) in
      (
        λ m. elim m [
          | inl e ↦ (j, omega arith, omega arith, e ∙ first)
          | inr l ↦ let (i, lo, hi, e) = rest.0 l in (i, omega arith, omega arith, e)
        ],
        λ (i, lo, hi, e). elim (ℕ_discrete i j) [
          | yes same ↦ inl (e ∙ rw same (sym first))
          | no later ↦ inr (rest.1 (i, omega arith, omega arith, e))
        ],
      )

  pub Has-ports :
      (p left r : ℕ)
      → r + left ≤ 2 ^ (16 - a - k)
      → Has p (ports_from a k psid (2 ^ a) left r)
        ↔ ((s : ℕ) × (i : ℕ) × (r ≤ s) × (s < r + left) × (i < 2 ^ a) × (p ≡ formula a k psid s i))
  unfolding ports_from
  Has-ports p zero r h = (λ e. absurd e, λ (s, i, lo, hi, hi', e). absurd (omega arith))
  Has-ports p (suc left) r h =
      let rest = Has-ports p left (r + 1) (omega arith) in
      let here = Has-row p r (2 ^ a) 0 (omega arith) (omega arith) in
      let split =
        Has-append p (ports_of_r a k psid r (2 ^ a) 0) (ports_from a k psid (2 ^ a) left (r + 1)) in
      (
        λ m. elim (split.0 m) [
          | inl l ↦
              let (i, lo, hi, e) = here.0 l in (r, i, omega arith, omega arith, omega arith, e)
          | inr l ↦ let (s, i, lo, hi, hj, e) = rest.0 l in (s, i, omega arith, omega arith, hj, e)
        ],
        λ (s, i, lo, hi, hj, e). elim (ℕ_discrete s r) [
          | yes same ↦ split.1 (
              inl (
                here.1
                  (i, omega arith, omega arith, e ∙ ap (λ (t : ℕ). formula a k psid t i) same)))
          | no later ↦ split.1 (inr (rest.1 (s, i, omega arith, omega arith, hj, e)))
        ],
      )

  length-ports_of_r : (r left j : ℕ) → length (ports_of_r a k psid r left j) ≡ left
  unfolding ports_of_r
  length-ports_of_r r zero j = refl
  length-ports_of_r r (suc left) j = ap suc (length-ports_of_r r left (j + 1))

  pub length-ports_from : (left r : ℕ) → length (ports_from a k psid (2 ^ a) left r) ≡ left * 2 ^ a
  unfolding ports_from
  length-ports_from zero r = omega arith
  length-ports_from (suc left) r = omega (
    arith,
    length-append (ports_of_r a k psid r (2 ^ a) 0) (ports_from a k psid (2 ^ a) left (r + 1)),
    length-ports_of_r r (2 ^ a) 0,
    length-ports_from left (r + 1),
  )

  IsAscending-weaken :
      (low low' : ℕ) (l : List ℕ) → low ≤ low' → IsAscending low' l → IsAscending low l
  IsAscending-weaken low low' [] h asc = tt
  IsAscending-weaken low low' (x ∷ xs) h asc = (omega arith, asc.1)

  IsAscending-row :
      (r left j low : ℕ) (rest : List ℕ)
      → r < 2 ^ (16 - a - k)
      → j + left ≤ 2 ^ a
      → low ≤ formula a k psid r j
      → low ≤ (r + 1) * 2 ^ (a + k)
      → IsAscending ((r + 1) * 2 ^ (a + k)) rest
      → IsAscending low (ports_of_r a k psid r left j ++ rest)
  unfolding ports_of_r
  IsAscending-row r zero j low rest hr hj h h' asc = IsAscending-weaken low _ rest h' asc
  IsAscending-row r (suc left) j low rest hr hj h h' asc =
      let value = port-formula r j hr (omega arith) in
      let last = row j (omega arith) in
      rw value (
        h,
        IsAscending-row r left (j + 1) (formula a k psid r j + 1) rest hr (omega arith)
            (omega (arith, pow_pos k)) (omega (arith, w.psid_fits)) asc,
      )

  pub IsAscending-ports :
      (left r : ℕ)
      → r + left ≤ 2 ^ (16 - a - k)
      → IsAscending (r * 2 ^ (a + k)) (ports_from a k psid (2 ^ a) left r)
  unfolding ports_from
  IsAscending-ports zero r h = tt
  IsAscending-ports (suc left) r h =
      IsAscending-row r (2 ^ a) 0 (r * 2 ^ (a + k)) (ports_from a k psid (2 ^ a) left (r + 1))
        (omega arith) (omega arith) (omega arith) (omega arith)
        (IsAscending-ports left (r + 1) (omega arith))

  All-row :
      (r left j : ℕ) (rest : List ℕ)
      → All (λ p. p < 2 ^ 16) rest
      → All (λ p. p < 2 ^ 16) (ports_of_r a k psid r left j ++ rest)
  unfolding ports_of_r port
  All-row r zero j rest h = h
  All-row r (suc left) j rest h = (omega arith, All-row r left (j + 1) rest h)

  pub All-ports : (left r : ℕ) → All (λ p. p < 2 ^ 16) (ports_from a k psid (2 ^ a) left r)
  unfolding ports_from
  All-ports zero r = tt
  All-ports (suc left) r =
      All-row r (2 ^ a) 0 (ports_from a k psid (2 ^ a) left (r + 1)) (All-ports left (r + 1))

  pub calc_value :
      calc_port_ranges (record { psid_offset = a; psid_length = k }) psid
      ≡ ok (merge (ports_from a k psid (2 ^ a) (2 ^ (16 - a - k) - 1) 1))
  unfolding calc_port_ranges sub_checked shl_checked
  calc_value =
      let rows = pow-le-pow_right {n = 2} (omega arith) {i = 16 - a - k} {j = 16} (omega arith) in
      let columns =
        pow-le-pow_right {n = 2} (omega arith) {i = a} {j = 16} (omega (arith, w.fits)) in
      ground (arith, w.fits)
