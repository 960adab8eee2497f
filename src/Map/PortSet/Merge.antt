-- ===== src/Map/PortSet/Merge.antt =====
-- The merged ranges are the ports, in order.
use mapecd.Common.{
  ℕ, zero, suc, ◌+◌, ◌-◌, ◌^◌, ◌≤◌, ◌<◌, ◌≡◌, ◌≢◌, refl, ap, ◌∙◌, List, [], ◌∷◌, ◌++◌, arith, All,
  Bool-cases, inl, inr, true, false,
}
use mapecd.Map.Rule.{PortRange}
use mapecd.Map.PortSet.{is_next, merge_from, merge}

-- The ports of a range, from `start` to `last`.
unfoldable pub count_from : ℕ → ℕ → List ℕ
count_from zero x = []
count_from (suc n) x = x ∷ count_from n (x + 1)

unfoldable pub range_ports : PortRange → List ℕ
unfolding count_from
range_ports r = count_from (r.last + 1 - r.start) r.start

unfoldable pub expand : List PortRange → List ℕ
unfolding range_ports
expand [] = []
expand (r ∷ rs) = range_ports r ++ expand rs

abbrev range : ℕ → ℕ → PortRange
range s e = record { start = s; last = e }

count_from_end :
    (n x : ℕ) (rest : List ℕ) → count_from (suc n) x ++ rest ≡ count_from n x ++ (x + n) ∷ rest
unfolding count_from
count_from_end zero x rest = let e : x ≡ x + 0 = omega arith in ap (λ (t : ℕ). t ∷ rest) e
count_from_end (suc n) x rest =
    let e : x + 1 + n ≡ x + suc n = omega arith in
    ap (λ l. x ∷ l) (rw e at (count_from_end n (x + 1) rest))

extend :
    (start end : ℕ) (rest : List ℕ)
    → start ≤ end
    → range_ports (range start (end + 1)) ++ rest
      ≡ range_ports (range start end) ++ (end + 1) ∷ rest
unfolding range_ports
extend start end rest h =
    let n = end + 1 - start in
    let longer : end + 1 + 1 - start ≡ suc n = omega arith in
    let reach : start + n ≡ end + 1 = omega arith in
    rw longer (rw reach at (count_from_end n start rest))

single : (p : ℕ) → range_ports (range p p) ≡ p ∷ []
unfolding range_ports
single p = let one : p + 1 - p ≡ 1 = omega arith in rw one

next_value : (end p : ℕ) → is_next end p ≡ true → p ≡ end + 1
unfolding is_next
next_value end p h = ground arith

expand-merge_from :
    (start end : ℕ) (ports : List ℕ)
    → start ≤ end
    → expand (merge_from start end ports) ≡ range_ports (range start end) ++ ports
unfolding merge_from expand
expand-merge_from start end [] h = refl
expand-merge_from start end (p ∷ ports) h = elim (Bool-cases (is_next end p)) [
  | inl next ↦
      let p_value = next_value end p next in
      rw next
        (expand-merge_from start p ports (omega arith) ∙ rw p_value (extend start end ports h))
  | inr gap ↦ rw gap (
      ap (λ l. range_ports (range start end) ++ l)
        (expand-merge_from p p ports (omega arith) ∙ ap (λ l. l ++ ports) (single p)))
]

-- Reading the merged ranges port by port gives back the list of ports: no port is lost, added or
-- moved by the merging loop.
pub expand-merge : (ports : List ℕ) → expand (merge ports) ≡ ports
unfolding merge expand
expand-merge [] = refl
expand-merge (first ∷ rest) =
    expand-merge_from first first rest (omega arith) ∙ ap (λ l. l ++ rest) (single first)

-- No range ends right before the next one begins.
abbrev pub IsSeparated : List PortRange → Type 0
IsSeparated [] = Unit
IsSeparated (r ∷ []) = Unit
IsSeparated (r ∷ r' ∷ rs) = (r.last + 1 ≢ r'.start) × IsSeparated (r' ∷ rs)

abbrev StartsAt : ℕ → List PortRange → Type 0
StartsAt start [] = ⊥
StartsAt start (r ∷ rs) = r.start ≡ start

merge_from-StartsAt : (start end : ℕ) (ports : List ℕ) → StartsAt start (merge_from start end ports)
unfolding merge_from
merge_from-StartsAt start end [] = refl
merge_from-StartsAt start end (p ∷ ports) = elim (Bool-cases (is_next end p)) [
  | inl next ↦ rw next (merge_from-StartsAt start p ports)
  | inr gap ↦ rw gap refl
]

IsSeparated-cons :
    (r : PortRange) (start : ℕ) (rs : List PortRange)
    → r.last + 1 ≢ start
    → StartsAt start rs
    → IsSeparated rs
    → IsSeparated (r ∷ rs)
IsSeparated-cons r start [] ne s h = tt
IsSeparated-cons r start (r' ∷ rs) ne s h = (λ e. ne (e ∙ s), h)

gap_value : (end p : ℕ) → p < 2 ^ 16 → is_next end p ≡ false → end + 1 ≢ p
unfolding is_next
gap_value end p fits h = ground arith

merge_from-IsSeparated :
    (start end : ℕ) (ports : List ℕ)
    → All (λ p. p < 2 ^ 16) ports
    → IsSeparated (merge_from start end ports)
unfolding merge_from
merge_from-IsSeparated start end [] h = tt
merge_from-IsSeparated start end (p ∷ ports) h = elim (Bool-cases (is_next end p)) [
  | inl next ↦ rw next (merge_from-IsSeparated start p ports h.1)
  | inr gap ↦ rw gap (
      IsSeparated-cons (range start end) p (merge_from p p ports) (gap_value end p h.0 gap)
        (merge_from-StartsAt p p ports) (merge_from-IsSeparated p p ports h.1))
]

-- Merged ranges are as long as they can be: between one range and the next a port is missing.
pub merge-IsSeparated : (ports : List ℕ) → All (λ p. p < 2 ^ 16) ports → IsSeparated (merge ports)
unfolding merge
merge-IsSeparated [] h = tt
merge-IsSeparated (first ∷ rest) h = merge_from-IsSeparated first first rest h.1
