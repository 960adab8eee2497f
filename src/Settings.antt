-- ===== src/Settings.antt =====
-- `Config::validate` and `validate_interface_name` of src/config.rs. A text is its code points.
pub mod Accepted
use mapecd.Common.{
  ℕ, ◌+◌, ltb, ◌==◌, if◌then◌else◌, Bool, true, false, ◌||◌, ◌&&◌, is_empty, List, [], ◌∷◌, Option,
  none, some, Res, ok, err, panic, ◌>>=◌,
}
use mapecd.Map.Rule.{MapeError, invalid_config}
use mapecd.Daemon.Host.{Text, Config}

-- The bytes of a character in UTF-8, and `str::len`.
unfoldable pub len_utf8 : ℕ → ℕ
len_utf8 c = if ltb c 0x80 then 1 else if ltb c 0x800 then 2 else if ltb c 0x10000 then 3 else 4

unfoldable pub text_len : Text → ℕ
text_len [] = 0
text_len (c ∷ text) = len_utf8 c + text_len text

-- `==` of two texts.
unfoldable pub text_eq : Text → Text → Bool
text_eq [] [] = true
text_eq (c ∷ text) (c' ∷ text') = c == c' && text_eq text text'
text_eq _ _ = false

-- `is_alphanumeric` is that of `char`, with the tables of Unicode.
module _ (is_alphanumeric : ℕ → Bool) where
  unfoldable pub is_allowed : ℕ → Bool
  is_allowed c = is_alphanumeric c || c == 45 || c == 95 || c == 46

  unfoldable pub all_allowed : Text → Bool
  all_allowed [] = true
  all_allowed (c ∷ text) = is_allowed c && all_allowed text

  unfoldable pub validate_interface_name : Text → Res MapeError Unit
  validate_interface_name name =
      if is_empty name
      then err invalid_config
      else if ltb 15 (text_len name)
      then err invalid_config
      else if all_allowed name
      then ok tt
      else err invalid_config

  -- `if let Some(mtu) = self.tunnel_mtu`
  unfoldable pub validate_mtu : Option ℕ → Res MapeError Unit
  validate_mtu none = ok tt
  validate_mtu (some mtu) = if ltb mtu 1280 || ltb 65535 mtu then err invalid_config else ok tt

  unfoldable pub validate : Config → Res MapeError Unit
  validate config = validate_interface_name config.upstream_interface >>= λ _.
      validate_interface_name config.tunnel_interface >>= λ _.
      if text_eq config.upstream_interface config.tunnel_interface
      then err invalid_config
      else validate_mtu config.tunnel_mtu
