-- ===== src/Dhcp/Options.antt =====
-- `iter_opts` of src/dhcpv6/parser.rs: a sequence of options, each with two bytes of code, two of
-- length, and the data. The closure's captured variables are the state `S`. What is left of the
-- payload stands for the position in it.
pub mod Encoding
use mapecd.Common.{ℕ, zero, suc, ◌+◌, ◌*◌, ltb, if◌then◌else◌, List, [], ◌∷◌, length, take, drop}

-- `u16::from_be_bytes`
unfoldable pub u16_of : ℕ → ℕ → ℕ
u16_of high low = high * 256 + low

module _ {S : Type 0} (f : ℕ → List ℕ → S → S) where
  -- The loop, with a bound on its rounds; each round takes at least four bytes.
  unfoldable pub iter_rounds : ℕ → List ℕ → S → S
  iter_rounds zero payload s = s
  iter_rounds (suc rounds) [] s = s
  iter_rounds (suc rounds) (c ∷ []) s = s
  iter_rounds (suc rounds) (c ∷ c' ∷ []) s = s
  iter_rounds (suc rounds) (c ∷ c' ∷ l ∷ []) s = s
  iter_rounds (suc rounds) (c ∷ c' ∷ l ∷ l' ∷ rest) s =
      let len = u16_of l l' in
      let next = iter_rounds rounds (drop len rest) (f (u16_of c c') (take len rest) s) in
      if ltb (length rest) len then s else next

  unfoldable pub iter_opts : List ℕ → S → S
  iter_opts payload s = iter_rounds (length payload) payload s
