-- ===== src/Tests/Packets.antt =====
-- Packets as lists of bytes, in the place of aya's `TcContext`.
use mapecd.Common.{
  ℕ, zero, suc, ◌+◌, ◌*◌, ◌/◌, ◌%◌, ◌<◌, ◌≡◌, refl, arith, List, [], ◌∷◌, Option, some, none,
  get_elem?,
}
use native.Mathlib.Nat.{mod-lt}
use mapecd.Ebpf.Context.{TcContext, IsLittleEndian, LoadsWords}

abbrev byte_of : Option ℕ → Option ℕ
byte_of none = none
byte_of (some x) = some (x % 256)

abbrev load_u8 : List ℕ → ℕ → Option ℕ
load_u8 bytes i = byte_of (get_elem? bytes i)

abbrev join : Option ℕ → Option ℕ → Option ℕ
join (some low) (some high) = some (low + 256 * high)
join _ _ = none

abbrev put : ℕ → ℕ → List ℕ → Option (List ℕ)
put i x [] = none
put zero x (b ∷ bytes) = some (x ∷ bytes)
put (suc i) x (b ∷ bytes) = elim (put i x bytes) [ none ↦ none | some l ↦ some (b ∷ l) ]

abbrev store_u16 : List ℕ → ℕ → ℕ → Option (List ℕ)
store_u16 bytes i x = elim (put i (x % 256) bytes) [
  | none ↦ none
  | some l ↦ put (i + 1) (x / 256) l
]

-- The checksum is not kept.
abbrev pub byte_lists : TcContext
byte_lists = record {
  Ctx = List ℕ;
  load_u8 = load_u8;
  load_u16 = λ bytes i. join (load_u8 bytes i) (load_u8 bytes (i + 1));
  store_u16 = store_u16;
  l4_csum_replace = λ bytes _ _ _ _. some bytes;
  bpf_f_pseudo_hdr = 16;
  tc_act_ok = 0;
}

byte_of-lt : (o : Option ℕ) (x : ℕ) → byte_of o ≡ some x → x < 256
byte_of-lt none x h = absurd cc
byte_of-lt (some y) x h = let small = mod-lt y {m = 256} (omega arith) in ground arith

pub byte_lists-IsLittleEndian : IsLittleEndian byte_lists
byte_lists-IsLittleEndian = record {
  loads = λ bytes i low high lo hi. rw (lo, hi) refl;
  bytes = λ bytes i x h. byte_of-lt (get_elem? bytes i) x h;
}

join-lt :
    (p q : Option ℕ) (x : ℕ)
    → ((y : ℕ) → p ≡ some y → y < 256)
    → ((y : ℕ) → q ≡ some y → y < 256)
    → join p q ≡ some x
    → x < 65536
join-lt (some low) (some high) x hp hq h =
    let below = hp low refl in let below' = hq high refl in ground arith
join-lt (some low) none x hp hq h = absurd cc
join-lt none (some high) x hp hq h = absurd cc
join-lt none none x hp hq h = absurd cc

pub byte_lists-LoadsWords : LoadsWords byte_lists
byte_lists-LoadsWords bytes i x h =
    join-lt (load_u8 bytes i) (load_u8 bytes (i + 1)) x (byte_of-lt (get_elem? bytes i))
      (byte_of-lt (get_elem? bytes (i + 1))) h
