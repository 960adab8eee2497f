-- ===== src/Dhcp/Watcher.antt =====
-- The watcher of a systemd-networkd lease file, src/dhcpv6/lease_watcher.rs: the parser of the file
-- and what an inotify event makes it do. A text is its code points.
pub mod File
use mapecd.Common.{
  ℕ, ◌==◌, if◌then◌else◌, Bool, true, false, ◌&&◌, List, [], ◌∷◌, Option, none, some,
}
use mapecd.Settings.{text_eq}
use mapecd.Daemon.Host.{Text}
use mapecd.Daemon.Sysctl.{is_whitespace, trim_end}

-- "X-DELEGATED-PREFIX="
abbrev pub delegated_prefix_key : Text
delegated_prefix_key =
    b'X' ∷ b'-' ∷ b'D' ∷ b'E' ∷ b'L' ∷ b'E' ∷ b'G' ∷ b'A' ∷ b'T' ∷ b'E' ∷ b'D' ∷ b'-' ∷ b'P' ∷ b'R'
    ∷ b'E' ∷ b'F' ∷ b'I' ∷ b'X' ∷ b'=' ∷ []

unfoldable pub starts_with_newline : Text → Bool
starts_with_newline [] = false
starts_with_newline (c ∷ text) = c == 10

-- A character in front of the first line.
unfoldable pub prepend : ℕ → List Text → List Text
prepend c [] = (c ∷ []) ∷ []
prepend c (line ∷ rest) = (c ∷ line) ∷ rest

-- `str::lines`: a line feed, or a carriage return with a line feed, ends a line.
unfoldable pub lines : Text → List Text
lines [] = []
lines (c ∷ text) =
    let rest = lines text in
    if c == 10
    then [] ∷ rest
    else if c == 13 && starts_with_newline text
    then rest
    else prepend c rest

unfoldable pub trim_start : Text → Text
trim_start [] = []
trim_start (c ∷ text) = let rest = trim_start text in if is_whitespace c then rest else c ∷ text

unfoldable pub trim : Text → Text
trim text = trim_start (trim_end text)

unfoldable pub strip_prefix : Text → Text → Option Text
strip_prefix [] text = some text
strip_prefix (k ∷ key) [] = none
strip_prefix (k ∷ key) (c ∷ text) =
    let rest = strip_prefix key text in if k == c then rest else none

-- `parse` is that of the crate ipnet, with its error dropped.
module _ {Net : Type 0} (parse : Text → Option Net) where
  -- `for line in content.lines()`
  unfoldable pub find_delegated_prefix : List Text → Option Net
  find_delegated_prefix [] = none
  find_delegated_prefix (line ∷ rest) = elim (strip_prefix delegated_prefix_key (trim line)) [
    | some value ↦ parse (trim value)
    | none ↦ find_delegated_prefix rest
  ]

  unfoldable pub parse_delegated_prefix : Text → Option Net
  parse_delegated_prefix content = find_delegated_prefix (lines content)

  -- The file and the channel: `read_to_string`, and `tx.send`, whose error is dropped.
  module _ {World : Type 0} (read_to_string : World → Option Text × World)
      (send : Net → World → World) where
    unfoldable pub parse_lease_file : World → Option Net × World
    parse_lease_file world =
        let (content, world') = read_to_string world in
        elim content [ none ↦ (none, world') | some text ↦ (parse_delegated_prefix text, world') ]

    unfoldable pub handle_lease_event : World → World
    handle_lease_event world =
        let (prefix, world') = parse_lease_file world in
        elim prefix [ none ↦ world' | some net ↦ send net world' ]

    -- `event.name.as_deref() == Some(…)`
    unfoldable pub is_target : Text → Option Text → Bool
    is_target target_name none = false
    is_target target_name (some name) = text_eq name target_name

    -- `for event in events`, by the names of the events.
    unfoldable pub handle_lease_events : Text → List (Option Text) → World → World
    handle_lease_events target_name [] world = world
    handle_lease_events target_name (name ∷ names) world =
        handle_lease_events target_name names
          (if is_target target_name name then handle_lease_event world else world)
