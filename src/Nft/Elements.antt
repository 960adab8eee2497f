-- ===== src/Nft/Elements.antt =====
-- The elements of the set `port_ranges` in the rule set of src/nftables/manager.rs, read back.
use mapecd.Common.{
  ℕ, zero, suc, ◌+◌, ◌-◌, ◌*◌, ◌/◌, ◌%◌, ◌^◌, ◌≤◌, ◌<◌, ◌≡◌, refl, ◌∙◌, ap, sym, arith, ==_iff,
  ◌==◌, ltb, ltb→lt, not-ltb→le, pow-suc, if◌then◌else◌, List, [], ◌∷◌, ◌++◌, Option, none, some,
  All, Bool-cases, inl, inr,
}
use mathlib.Core.List.{append_assoc, append-nil}
use mapecd.Map.Rule.{PortRange}
use mapecd.Daemon.Host.{Text}
use mapecd.Nft.Display.{codes, digits, decimal_digit, decimal}
use mapecd.Nft.{range_text, format_port_elements}

-- A reading of the elements: a number, or two with a dash, up to each comma.
abbrev element : Option ℕ → ℕ → PortRange
element none n = record { start = n; last = n }
element (some start) n = record { start = start; last = n }

unfoldable pub read_elements : Option ℕ → ℕ → Text → List PortRange
read_elements start n [] = element start n ∷ []
read_elements start n (c ∷ text) =
    let next = element start n ∷ read_elements none 0 text in
    let last = read_elements (some n) 0 text in
    let same = read_elements start n text in
    let digit = read_elements start (n * 10 + (c - b'0')) text in
    if c == b',' then next else if c == b'-' then last else if c == b' ' then same else digit

read_digit :
    (d m : ℕ) (start : Option ℕ) (rest : Text)
    → d < 10
    → read_elements start m (decimal_digit d ∷ rest) ≡ read_elements start (m * 10 + d) rest
unfolding read_elements
read_digit d m start rest h = ground arith

at_least_two : (k n : ℕ) → 10 ≤ n → n < 10 ^ suc k → 0 < k
at_least_two zero n large h = absurd (omega arith)
at_least_two (suc k) n large h = omega arith

read_digits :
    (k n : ℕ) (start : Option ℕ) (rest : Text)
    → 0 < k
    → n < 10 ^ k
    → read_elements start 0 (digits decimal_digit 10 k n ++ rest) ≡ read_elements start n rest
unfolding digits
read_digits zero n start rest some_digits h = absurd (omega arith)
read_digits (suc k) n start rest some_digits h = elim (Bool-cases (ltb n 10)) [
  | inl short ↦
      let small : n < 10 = ltb→lt n 10 short in
      let same : 0 * 10 + n % 10 ≡ n = omega arith in
      rw short
        (read_digit (n % 10) 0 start rest (omega arith) ∙ ap (λ m. read_elements start m rest) same)
  | inr long ↦
      let large : 10 ≤ n = not-ltb→le n 10 long in
      let power : 10 ^ suc k ≡ 10 ^ k * 10 = pow-suc 10 k in
      let more : 0 < k = at_least_two k n large h in
      let front = digits decimal_digit 10 k (n / 10) in
      let whole : n / 10 * 10 + n % 10 ≡ n = omega arith in
      rw long (
        ap (read_elements start 0) (append_assoc front (decimal_digit (n % 10) ∷ []) rest)
        ∙ read_digits k (n / 10) start (decimal_digit (n % 10) ∷ rest) more (omega (arith, power))
        ∙ read_digit (n % 10) (n / 10) start rest (omega arith)
        ∙ ap (λ m. read_elements start m rest) whole)
]

read_decimal :
    (n : ℕ) (start : Option ℕ) (rest : Text)
    → n < 2 ^ 16
    → read_elements start 0 (decimal n ++ rest) ≡ read_elements start n rest
unfolding decimal
read_decimal n start rest h = read_digits 5 n start rest (omega arith) (omega arith)

abbrev pub IsPortRange : PortRange → Type 0
IsPortRange r = (r.start < 2 ^ 16) × (r.last < 2 ^ 16)

-- What is left to read behind a range.
abbrev first_of : PortRange → Option ℕ
first_of r = if r.start == r.last then none else some r.start

element_of : (r : PortRange) → element (first_of r) r.last ≡ r
element_of r = ground arith

read_range :
    (r : PortRange) (rest : Text)
    → IsPortRange r
    → read_elements none 0 (range_text r ++ rest) ≡ read_elements (first_of r) r.last rest
unfolding range_text
read_range r rest (start_fits, last_fits) = elim (Bool-cases (r.start == r.last)) [
  | inl single ↦
      let same : r.start ≡ r.last = (==_iff r.start r.last).0 single in
      rw single
        (read_decimal r.start none rest start_fits ∙ ap (λ m. read_elements none m rest) same)
  | inr pair ↦
      let tail = b'-' ∷ decimal r.last in
      let dash : read_elements none r.start (b'-' ∷ (decimal r.last ++ rest))
          ≡ read_elements (some r.start) 0 (decimal r.last ++ rest) =
        unfold read_elements in refl in
      rw pair (
        ap (read_elements none 0) (append_assoc (decimal r.start) tail rest)
        ∙ read_decimal r.start none (tail ++ rest) start_fits
        ∙ dash
        ∙ read_decimal r.last (some r.start) rest last_fits)
]

read_last : (r : PortRange) → IsPortRange r → read_elements none 0 (range_text r) ≡ r ∷ []
read_last r fits =
    let ended : read_elements (first_of r) r.last [] ≡ element (first_of r) r.last ∷ [] =
      unfold read_elements in refl in
    ap (read_elements none 0) (sym (append-nil (range_text r)))
    ∙ read_range r [] fits
    ∙ ended
    ∙ ap (λ e. e ∷ []) (element_of r)

read_next :
    (r : PortRange) (rest : Text)
    → IsPortRange r
    → read_elements none 0 (range_text r ++ (codes ", " ++ rest)) ≡ r ∷ read_elements none 0 rest
read_next r rest fits =
    let ended : read_elements (first_of r) r.last (codes ", " ++ rest)
        ≡ element (first_of r) r.last ∷ read_elements none 0 rest =
      unfold read_elements in refl in
    read_range r (codes ", " ++ rest) fits
    ∙ ended
    ∙ ap (λ e. e ∷ read_elements none 0 rest) (element_of r)

-- The set holds the ranges: the elements that `format_port_elements` prints, read number by number
-- and dash by dash up to each comma, are the port ranges, one or more of 16 bits, in their order.
pub read_elements-format_port_elements :
    (r : PortRange) (ranges : List PortRange)
    → All IsPortRange (r ∷ ranges)
    → read_elements none 0 (format_port_elements (r ∷ ranges)) ≡ r ∷ ranges
unfolding format_port_elements
read_elements-format_port_elements r [] (fits, _) = read_last r fits
read_elements-format_port_elements r (r' ∷ ranges) (fits, others) =
    read_next r (format_port_elements (r' ∷ ranges)) fits
    ∙ ap (λ rs. r ∷ rs) (read_elements-format_port_elements r' ranges others)
