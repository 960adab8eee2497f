-- ===== src/Tests/Files.antt =====
-- Runs of the theorems on files: the cache of src/daemon/runner.rs and the lease file of
-- src/dhcpv6/lease_watcher.rs.
use mapecd.Common.{
  ◌≡◌, refl, ap, sym, ◌∙◌, ◌==◌, false, arith, if◌then◌else◌, Bool, true, List, [], ◌∷◌, ◌++◌,
  Option, none, some,
}
use mapecd.Settings.{text_eq}
use mapecd.Map.Rule.{MapRule}
use mapecd.Daemon.Host.{Text, Reply, done, Host}
use mapecd.Daemon.Sysctl.{is_whitespace, trim_end}
use mapecd.Daemon.Cache.{
  CacheFormat, create_parent, write_and_rename, save_rules_cache, load_rules_cache,
}
use mapecd.Daemon.Cache.Restart.{IsStore, load_rules_cache-save_rules_cache}
use mapecd.Dhcp.Watcher.{
  delegated_prefix_key, trim_start, trim, strip_prefix, parse_delegated_prefix,
}
use mapecd.Dhcp.Watcher.File.{unlines, parse_delegated_prefix-unlines}
use mapecd.Tests.Network.{networks}
use mapecd.Tests.Rules.{small_rule}

-- The files by their names.
abbrev Store : Type 0
Store = Text → Option Text

abbrev put : Text → Option Text → Store → Store
put path bytes store name = if text_eq name path then bytes else store name

abbrev kept : {A : Type 0} → A → Store → Reply A × Store
kept a store = (done a, store)

abbrev files : Host
files = record {
  World = Store;
  Ebpf = Unit;
  read_to_string = λ path store. (store path, store);
  read = λ path store. (store path, store);
  write = λ path bytes store. (true, put path (some bytes) store);
  create_dir_all = λ path store. (true, store);
  rename = λ path to store. (true, put to (store path) store);
  add_ipv6_addr = λ _ _. kept tt;
  del_ipv6_addr = λ _ _. kept tt;
  add_ipv4_addr = λ _ _. kept tt;
  del_ipv4_addr = λ _ _. kept tt;
  get_link_mtu = λ _. kept 1500;
  get_link_index = λ _. kept 2;
  create_ip6tnl = λ _ _ _ _ _. kept 7;
  delete_link = λ _. kept tt;
  add_ipv4_default_route = λ _. kept tt;
  del_ipv4_default_route_by_oif = λ _. kept tt;
  execute = λ _. kept tt;
  ip_link_delete = λ _ store. store;
  load = λ _. kept tt;
  link_tc = λ _ _. kept tt;
  update_config = λ _ _. kept tt;
  unlink_tc = λ _. kept tt;
}

-- Nine numbers for each rule.
abbrev numbers_of : List (MapRule networks) → Text
numbers_of [] = []
numbers_of (rule ∷ rules) =
    rule.ipv6_prefix.0
    ∷ rule.ipv6_prefix.1
    ∷ rule.ipv4_prefix.0
    ∷ rule.ipv4_prefix.1
    ∷ rule.ea_length
    ∷ (if rule.is_fmr then 1 else 0)
    ∷ rule.br_address
    ∷ rule.port_params.psid_offset
    ∷ rule.port_params.psid_length
    ∷ numbers_of rules

abbrev rules_of : Text → List (MapRule networks)
rules_of (addr6 ∷ len6 ∷ addr4 ∷ len4 ∷ ea_length ∷ fmr ∷ br ∷ offset ∷ width ∷ rest) =
    record {
      ipv6_prefix = (addr6, len6);
      ipv4_prefix = (addr4, len4);
      ea_length = ea_length;
      is_fmr = fmr == 1;
      br_address = br;
      port_params = record { psid_offset = offset; psid_length = width };
    }
    ∷ rules_of rest
rules_of _ = []

abbrev format : CacheFormat networks
format = record {
  to_vec = λ rules. some (numbers_of rules);
  from_slice = λ bytes. some (rules_of bytes);
  parent = λ path. none;
  with_extension_tmp = λ path. path ++ (46 ∷ []);
}

text_eq_self : (text : Text) → text_eq text text ≡ true
unfolding text_eq
text_eq_self [] = refl
text_eq_self (c ∷ text) = ground (arith, text_eq_self text)

fmr_value : (b : Bool) → ((if b then 1 else 0) == 1) ≡ b
fmr_value true = refl
fmr_value false = refl

rules_of-numbers_of : (rules : List (MapRule networks)) → rules_of (numbers_of rules) ≡ rules
rules_of-numbers_of [] = refl
rules_of-numbers_of (rule ∷ rules) =
    ap (λ b. record rule { is_fmr = b } ∷ rules_of (numbers_of rules)) (fmr_value rule.is_fmr)
    ∙ ap (λ rest. rule ∷ rest) (rules_of-numbers_of rules)

decoded :
    (rules : List (MapRule networks)) (bytes : Text)
    → Path (Option Text) (some (numbers_of rules)) (some bytes)
    → Path (Option (List (MapRule networks))) (some (rules_of bytes)) (some rules)
decoded rules bytes h =
    let same : numbers_of rules ≡ bytes = cc in
    ap (λ l. some l) (ap rules_of (sym same) ∙ rules_of-numbers_of rules)

files-IsStore : IsStore networks files format
files-IsStore = record {
  content = λ store path. store path;
  write_puts = λ path bytes w h. rw (text_eq_self path) refl;
  rename_moves = λ path to bytes w h ok. rw (text_eq_self to) h;
  read_gives = λ path w. refl;
  from_slice-to_vec = decoded;
}

abbrev no_files : Store
no_files _ = none

abbrev saved : Bool × Store
saved = save_rules_cache networks files format (97 ∷ []) (small_rule ∷ []) no_files

load_rules_cache-save_rules_cache_example :
    (load_rules_cache networks files format (97 ∷ []) saved.1).0 ≡ some (small_rule ∷ [])
unfolding save_rules_cache create_parent write_and_rename
load_rules_cache-save_rules_cache_example =
    load_rules_cache-save_rules_cache networks files format files-IsStore (97 ∷ [])
      (small_rule ∷ []) no_files refl

-- A comment line, the key after a blank, and the value before one.
abbrev comment : Text
comment = b'#' ∷ b'x' ∷ []

abbrev value : Text
value = b'2' ∷ b'0' ∷ b':' ∷ b':' ∷ b'/' ∷ b'5' ∷ b'6' ∷ []

parse_delegated_prefix-unlines_example :
    parse_delegated_prefix
      (λ text. some text)
      (unlines (
        comment ∷ ((32 ∷ []) ++ ((delegated_prefix_key ++ value) ++ (32 ∷ 9 ∷ []))) ∷ comment ∷ []))
    ≡ some value
unfolding is_whitespace trim trim_end trim_start strip_prefix
parse_delegated_prefix-unlines_example =
    parse_delegated_prefix-unlines (λ text. some text) (comment ∷ []) (comment ∷ []) (32 ∷ []) value
      (32 ∷ 9 ∷ []) (refl, tt) (refl, tt) (ground arith) (ground arith) (ground arith)
