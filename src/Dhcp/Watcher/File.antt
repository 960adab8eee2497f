-- ===== src/Dhcp/Watcher/File.antt =====
-- A lease file, as src/dhcpv6/lease_watcher.rs reads it.
use mapecd.Common.{
  ℕ, ◌≡◌, ◌≢◌, refl, ◌∙◌, ap, drop, arith, is_empty, true, false, List, [], ◌∷◌, ◌++◌, All, Option,
  none, some,
}
use mathlib.Core.List.{append-nil}
use mapecd.Daemon.Host.{Text}
use mapecd.Daemon.Sysctl.{is_whitespace, trim_end}
use mapecd.Dhcp.Watcher.{
  delegated_prefix_key, starts_with_newline, prepend, lines, trim_start, trim, strip_prefix,
  find_delegated_prefix, parse_delegated_prefix,
}

-- Lines, each of which ends in a line feed.
abbrev pub unlines : List Text → Text
unlines [] = []
unlines (line ∷ rest) = line ++ (10 ∷ unlines rest)

-- No character of a line ends it.
abbrev pub IsLine : Text → Type 0
IsLine line = All (λ (c : ℕ). (c ≢ 10) × (c ≢ 13)) line

lines-line : (line text : Text) → IsLine line → lines (line ++ (10 ∷ text)) ≡ line ∷ lines text
unfolding lines starts_with_newline prepend
lines-line [] text h = refl
lines-line (c ∷ line) text (here, rest) = ground (arith, here.0, here.1, lines-line line text rest)

lines-unlines : (ls : List Text) → All IsLine ls → lines (unlines ls) ≡ ls
unfolding lines
lines-unlines [] h = refl
lines-unlines (line ∷ rest) (first, others) =
    rw (lines-line line (unlines rest) first, lines-unlines rest others) refl

abbrev pub Solid : Text → Type 0
Solid text = All (λ (c : ℕ). is_whitespace c ≡ false) text

abbrev pub Blank : Text → Type 0
Blank text = All (λ (c : ℕ). is_whitespace c ≡ true) text

Solid-append : (xs ys : Text) → Solid xs → Solid ys → Solid (xs ++ ys)
Solid-append [] ys hx hy = hy
Solid-append (x ∷ xs) ys (here, rest) hy = (here, Solid-append xs ys rest hy)

is_empty-append : (text core : Text) (c : ℕ) → is_empty (text ++ (c ∷ core)) ≡ false
is_empty-append [] core c = refl
is_empty-append (x ∷ text) core c = refl

trim_end-Blank : (pad : Text) → Blank pad → trim_end pad ≡ []
unfolding trim_end
trim_end-Blank [] h = refl
trim_end-Blank (c ∷ pad) (here, rest) = ground (arith, trim_end-Blank pad rest)

-- What is solid at its end is not cut there.
trim_end_core :
    (text core pad : Text) (c : ℕ)
    → Solid (c ∷ core)
    → Blank pad
    → trim_end (text ++ ((c ∷ core) ++ pad)) ≡ text ++ (c ∷ core)
unfolding trim_end
trim_end_core [] [] pad c (here, rest) blank = ground (arith, trim_end-Blank pad blank)
trim_end_core [] (d ∷ core) pad c (here, rest) blank =
    rw (trim_end_core [] core pad d rest blank) refl
trim_end_core (x ∷ text) core pad c solid blank =
    rw (trim_end_core text core pad c solid blank, is_empty-append text core c) refl

trim_start_core :
    (pad core : Text) (c : ℕ)
    → is_whitespace c ≡ false
    → Blank pad
    → trim_start (pad ++ (c ∷ core)) ≡ c ∷ core
unfolding trim_start
trim_start_core [] core c solid blank = rw solid refl
trim_start_core (x ∷ pad) core c solid (here, rest) =
    rw here (trim_start_core pad core c solid rest)

-- `trim` takes the blanks off both ends.
trim_core :
    (left core right : Text) (c : ℕ)
    → Blank left
    → Solid (c ∷ core)
    → Blank right
    → trim (left ++ ((c ∷ core) ++ right)) ≡ c ∷ core
unfolding trim
trim_core left core right c blank solid blank' =
    rw (trim_end_core left core right c solid blank') (trim_start_core left core c solid.0 blank)

trim-Solid : (text : Text) → Solid text → trim text ≡ text
unfolding trim trim_end trim_start
trim-Solid [] h = refl
trim-Solid (c ∷ core) h = rw append-nil at (trim_core [] core [] c tt h tt)

strip_prefix_own : (key text : Text) → strip_prefix key (key ++ text) ≡ some text
unfolding strip_prefix
strip_prefix_own [] text = refl
strip_prefix_own (k ∷ key) text = ground (arith, strip_prefix_own key text)

delegated_prefix_key-Solid : Solid delegated_prefix_key
unfolding is_whitespace
delegated_prefix_key-Solid = ground arith

module _ {Net : Type 0} (parse : Text → Option Net) where
  -- A line that does not name the key.
  abbrev pub Other : Text → Type 0
  Other line = strip_prefix delegated_prefix_key (trim line) ≡ none

  found_value :
      (left value right : Text) (rest : List Text)
      → Blank left
      → Solid value
      → Blank right
      → find_delegated_prefix parse ((left ++ ((delegated_prefix_key ++ value) ++ right)) ∷ rest)
        ≡ parse value
  unfolding find_delegated_prefix
  found_value left value right rest blank solid blank' =
      let core = drop 1 delegated_prefix_key ++ value in
      let whole = Solid-append delegated_prefix_key value delegated_prefix_key-Solid solid in
      let line = left ++ ((delegated_prefix_key ++ value) ++ right) in
      let trimmed : trim line ≡ delegated_prefix_key ++ value =
        trim_core left core right b'X' blank whole blank' in
      let own = strip_prefix_own delegated_prefix_key value in
      let stripped : strip_prefix delegated_prefix_key (trim line) ≡ some value =
        ap (strip_prefix delegated_prefix_key) trimmed ∙ own in
      rw (stripped, find_delegated_prefix) (ap parse (trim-Solid value solid))

  skip_others :
      (before rest : List Text)
      → All Other before
      → find_delegated_prefix parse (before ++ rest) ≡ find_delegated_prefix parse rest
  unfolding find_delegated_prefix
  skip_others [] rest h = refl
  skip_others (line ∷ before) rest (here, others) =
      rw (here, find_delegated_prefix) (skip_others before rest others)

  -- A lease file is read as it is written: of a file of lines, the value behind the first key
  -- `X-DELEGATED-PREFIX=` is what is parsed, with the blanks around the key and the value taken off,
  -- whatever lines follow.
  pub parse_delegated_prefix-unlines :
      (before after : List Text) (left value right : Text)
      → All Other before
      → Blank left
      → Solid value
      → Blank right
      → All IsLine (before ++ ((left ++ ((delegated_prefix_key ++ value) ++ right)) ∷ after))
      → parse_delegated_prefix parse
          (unlines (before ++ ((left ++ ((delegated_prefix_key ++ value) ++ right)) ∷ after)))
        ≡ parse value
  unfolding parse_delegated_prefix
  parse_delegated_prefix-unlines before after left value right others blank solid blank' whole =
      let line = left ++ ((delegated_prefix_key ++ value) ++ right) in
      rw (lines-unlines (before ++ (line ∷ after)) whole) (
        skip_others before (line ∷ after) others
        ∙ found_value left value right after blank solid blank')
