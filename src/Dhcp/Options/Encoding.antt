-- ===== src/Dhcp/Options/Encoding.antt =====
-- `iter_opts` needs no more rounds than there are bytes, and reads back what is encoded.
use mapecd.Common.{
  ℕ, zero, suc, ◌+◌, ◌*◌, ◌/◌, ◌%◌, ◌^◌, ◌≤◌, ◌<◌, ◌≡◌, refl, ◌∙◌, arith, List, [], ◌∷◌, ◌++◌, All,
  length, take, drop, length-append, take-append, drop-append, le→not-ltb,
}
use native.Mathlib.Nat.{div-add-mod'}
use mapecd.Dhcp.Options.{u16_of, iter_rounds, iter_opts}

length-drop-le : (n : ℕ) (xs : List ℕ) → length (drop n xs) ≤ length xs
length-drop-le zero xs = omega arith
length-drop-le (suc n) [] = omega arith
length-drop-le (suc n) (x ∷ xs) = omega (arith, length-drop-le n xs)

-- An option: its code and its data.
abbrev pub Entry : Type 0
Entry = ℕ × List ℕ

abbrev pub encode : List Entry → List ℕ
encode [] = []
encode (e ∷ es) = e.0 / 256 ∷ e.0 % 256 ∷ length e.1 / 256 ∷ length e.1 % 256 ∷ (e.1 ++ encode es)

module _ {S : Type 0} (f : ℕ → List ℕ → S → S) where
  -- The closure, run on every option in order.
  abbrev pub run_entries : List Entry → S → S
  run_entries [] s = s
  run_entries (e ∷ es) s = run_entries es (f e.0 e.1 s)

  iter_rounds_agree :
      (m n : ℕ) (payload : List ℕ) (s : S)
      → length payload ≤ m
      → length payload ≤ n
      → iter_rounds f m payload s ≡ iter_rounds f n payload s
  unfolding iter_rounds
  iter_rounds_agree zero zero payload s hm hn = refl
  iter_rounds_agree zero (suc n) [] s hm hn = refl
  iter_rounds_agree zero (suc n) (c ∷ payload) s hm hn = absurd (omega arith)
  iter_rounds_agree (suc m) zero [] s hm hn = refl
  iter_rounds_agree (suc m) zero (c ∷ payload) s hm hn = absurd (omega arith)
  iter_rounds_agree (suc m) (suc n) [] s hm hn = refl
  iter_rounds_agree (suc m) (suc n) (c ∷ []) s hm hn = refl
  iter_rounds_agree (suc m) (suc n) (c ∷ c' ∷ []) s hm hn = refl
  iter_rounds_agree (suc m) (suc n) (c ∷ c' ∷ l ∷ []) s hm hn = refl
  iter_rounds_agree (suc m) (suc n) (c ∷ c' ∷ l ∷ l' ∷ rest) s hm hn =
      let len = u16_of l l' in
      let shorter = length-drop-le len rest in
      let same =
        iter_rounds_agree m n (drop len rest) (f (u16_of c c') (take len rest) s) (omega arith)
          (omega arith) in
      rw same

  -- The loop ends by itself: more rounds than there are bytes change nothing.
  pub iter_opts_enough :
      (rounds : ℕ) (payload : List ℕ) (s : S)
      → length payload ≤ rounds
      → iter_rounds f rounds payload s ≡ iter_opts f payload s
  unfolding iter_opts
  iter_opts_enough rounds payload s enough =
      iter_rounds_agree rounds (length payload) payload s enough (omega arith)

  iter_opts_step :
      (e : Entry) (rest : List ℕ) (s : S)
      → e.0 < 2 ^ 16
      → length e.1 < 2 ^ 16
      → iter_opts f (e.0 / 256 ∷ e.0 % 256 ∷ length e.1 / 256 ∷ length e.1 % 256 ∷ (e.1 ++ rest)) s
        ≡ iter_opts f rest (f e.0 e.1 s)
  unfolding iter_opts iter_rounds u16_of
  iter_opts_step e rest s code_fits length_fits =
      let code : e.0 / 256 * 256 + e.0 % 256 ≡ e.0 = div-add-mod' e.0 256 in
      let len : length e.1 / 256 * 256 + length e.1 % 256 ≡ length e.1 =
        div-add-mod' (length e.1) 256 in
      let sum = length-append e.1 rest in
      let whole = le→not-ltb (length (e.1 ++ rest)) (length e.1) (omega arith) in
      let enough =
        iter_rounds_agree (suc (suc (suc (length (e.1 ++ rest))))) (length rest) rest (f e.0 e.1 s)
          (omega arith) (omega arith) in
      rw (code, len, whole, take-append, drop-append) enough

  -- Options that are encoded one after another are handed to the closure in this order, each with its
  -- code and its data, and nothing else is.
  pub iter_opts-encode :
      (es : List Entry) (s : S)
      → All (λ e. (e.0 < 2 ^ 16) × (length e.1 < 2 ^ 16)) es
      → iter_opts f (encode es) s ≡ run_entries es s
  unfolding iter_opts iter_rounds
  iter_opts-encode [] s fits = refl
  iter_opts-encode (e ∷ es) s fits =
      iter_opts_step e (encode es) s fits.0.0 fits.0.1 ∙ iter_opts-encode es (f e.0 e.1 s) fits.1
