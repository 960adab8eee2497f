-- ===== src/Map/V6plus/Prefix31.antt =====
-- Rows of `RULES` in src/map/v6plus_rules.rs: the table ruleprefix31.
use mapecd.Common.{List, [], ◌∷◌}
use mapecd.Map.V6plus.Row.{Row, entry, br_275, br_276, br_64, ports_8}

abbrev pub rules_from_256 : List Row
rules_from_256 =
    entry 0x2404 0x7a80 0x0000 31 133 200 0 0 15 25 br_275 ports_8
    ∷ entry 0x2404 0x7a84 0x0000 31 133 206 0 0 15 25 br_276 ports_8
    ∷ entry 0x240b 0x0010 0x0000 31 106 72 0 0 15 25 br_64 ports_8
    ∷ entry 0x240b 0x0012 0x0000 31 14 8 0 0 15 25 br_64 ports_8
    ∷ entry 0x240b 0x0250 0x0000 31 14 10 0 0 15 25 br_64 ports_8
    ∷ entry 0x240b 0x0252 0x0000 31 14 12 0 0 15 25 br_64 ports_8
    ∷ []
