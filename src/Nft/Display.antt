-- ===== src/Nft/Display.antt =====
-- How src/nftables/manager.rs prints its values: `Display` of an unsigned integer and of an
-- `Ipv6Addr`. A text is its code points.
use Prim.Native.Char.{code}
use Prim.Native.String.{String}
use mapecd.Common.{
  ℕ, zero, suc, ◌+◌, ◌-◌, ◌/◌, ◌%◌, ◌*◌, ◌^◌, ◌==◌, ltb, if◌then◌else◌, ◌&&◌, List, [], ◌∷◌, ◌++◌,
  take, drop,
}
use mapecd.Daemon.Host.{Text}

-- A literal of the source.
abbrev pub codes : String → Text
codes String.[] = []
codes (String.◌∷◌ c s) = code c ∷ codes s

-- The digits of a number in a base, with a bound on how many there are.
unfoldable pub digits : (ℕ → ℕ) → ℕ → ℕ → ℕ → Text
digits glyph base zero n = []
digits glyph base (suc k) n =
    let front = digits glyph base k (n / base) in
    (if ltb n base then [] else front) ++ (glyph (n % base) ∷ [])

abbrev pub decimal_digit : ℕ → ℕ
decimal_digit d = b'0' + d

abbrev pub hex_digit : ℕ → ℕ
hex_digit d = if ltb d 10 then b'0' + d else b'a' + (d - 10)

-- `{}` of a `u16`, and of a `u8`, and `{:x}` of a `u16`.
unfoldable pub decimal : ℕ → Text
decimal n = digits decimal_digit 10 5 n

unfoldable pub hex : ℕ → Text
hex n = digits hex_digit 16 4 n

-- The eight segments of an address.
unfoldable pub segments_from : ℕ → ℕ → List ℕ
segments_from zero addr = []
segments_from (suc k) addr = addr / 2 ^ (16 * k) % 2 ^ 16 ∷ segments_from k addr

pub record Span : Type 0 where
  pub start : ℕ
  pub len : ℕ

abbrev pub no_span : Span
no_span = record { start = 0; len = 0 }

-- The longest run of zeros, the first one where there are several.
unfoldable pub longest_zeros : ℕ → Span → Span → List ℕ → Span
longest_zeros i longest current [] = longest
longest_zeros i longest current (segment ∷ segments) =
    let start = if current.len == 0 then i else current.start in
    let grown : Span = record { start = start; len = current.len + 1 } in
    longest_zeros (i + 1) (if segment == 0 && ltb longest.len grown.len then grown else longest)
      (if segment == 0 then grown else no_span) segments

-- `{:x}` of the segments, with colons between them.
unfoldable pub subslice : List ℕ → Text
subslice [] = []
subslice (segment ∷ []) = hex segment
subslice (segment ∷ (next ∷ segments)) = hex segment ++ (b':' ∷ subslice (next ∷ segments))

unfoldable pub ipv4_text : ℕ → Text
ipv4_text addr =
    decimal (addr / 2 ^ 24 % 256)
    ++ (b'.'
        ∷ (decimal (addr / 2 ^ 16 % 256)
            ++ (b'.' ∷ (decimal (addr / 2 ^ 8 % 256) ++ (b'.' ∷ decimal (addr % 256))))))

unfoldable pub ipv6_text : ℕ → Text
ipv6_text addr =
    let segments = segments_from 8 addr in
    let zeros = longest_zeros 0 no_span no_span segments in
    if addr / 2 ^ 32 == 0xffff
    then codes "::ffff:" ++ ipv4_text (addr % 2 ^ 32)
    else if ltb 1 zeros.len
    then subslice (take zeros.start segments)
      ++ (codes "::" ++ subslice (drop (zeros.start + zeros.len) segments))
    else subslice segments
