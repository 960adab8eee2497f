-- ===== src/Map/V6plus/Prefix20A.antt =====
-- Rows of `RULES` in src/map/v6plus_rules.rs: the table ruleprefix38_20, the first third.
use mapecd.Common.{List, [], ◌∷◌}
use mapecd.Map.V6plus.Row.{Row, entry, br_9, ports_6}

abbrev pub rules_from_262 : List Row
rules_from_262 =
    entry 0x2400 0x4050 0x0000 38 153 240 0 0 20 18 br_9 ports_6
    ∷ entry 0x2400 0x4050 0x0400 38 153 240 16 0 20 18 br_9 ports_6
    ∷ entry 0x2400 0x4050 0x0800 38 153 240 32 0 20 18 br_9 ports_6
    ∷ entry 0x2400 0x4050 0x0c00 38 153 240 48 0 20 18 br_9 ports_6
    ∷ entry 0x2400 0x4050 0x1000 38 153 240 64 0 20 18 br_9 ports_6
    ∷ entry 0x2400 0x4050 0x1400 38 153 240 80 0 20 18 br_9 ports_6
    ∷ entry 0x2400 0x4050 0x1800 38 153 240 96 0 20 18 br_9 ports_6
    ∷ entry 0x2400 0x4050 0x1c00 38 153 240 112 0 20 18 br_9 ports_6
    ∷ entry 0x2400 0x4050 0x2000 38 153 240 128 0 20 18 br_9 ports_6
    ∷ entry 0x2400 0x4050 0x2400 38 153 240 144 0 20 18 br_9 ports_6
    ∷ entry 0x2400 0x4050 0x2800 38 153 240 160 0 20 18 br_9 ports_6
    ∷ entry 0x2400 0x4050 0x2c00 38 153 240 176 0 20 18 br_9 ports_6
    ∷ entry 0x2400 0x4050 0x3000 38 153 240 192 0 20 18 br_9 ports_6
    ∷ []

abbrev pub rules_from_275 : List Row
rules_from_275 =
    entry 0x2400 0x4050 0x3400 38 153 240 208 0 20 18 br_9 ports_6
    ∷ entry 0x2400 0x4050 0x3800 38 153 240 224 0 20 18 br_9 ports_6
    ∷ entry 0x2400 0x4050 0x3c00 38 153 240 240 0 20 18 br_9 ports_6
    ∷ entry 0x2400 0x4050 0x4000 38 153 241 0 0 20 18 br_9 ports_6
    ∷ entry 0x2400 0x4050 0x4400 38 153 241 16 0 20 18 br_9 ports_6
    ∷ entry 0x2400 0x4050 0x4800 38 153 241 32 0 20 18 br_9 ports_6
    ∷ entry 0x2400 0x4050 0x4c00 38 153 241 48 0 20 18 br_9 ports_6
    ∷ entry 0x2400 0x4050 0x5000 38 153 241 64 0 20 18 br_9 ports_6
    ∷ entry 0x2400 0x4050 0x5400 38 153 241 80 0 20 18 br_9 ports_6
    ∷ entry 0x2400 0x4050 0x5800 38 153 241 96 0 20 18 br_9 ports_6
    ∷ entry 0x2400 0x4050 0x5c00 38 153 241 112 0 20 18 br_9 ports_6
    ∷ entry 0x2400 0x4050 0x6000 38 153 241 128 0 20 18 br_9 ports_6
    ∷ entry 0x2400 0x4050 0x6400 38 153 241 144 0 20 18 br_9 ports_6
    ∷ []

abbrev pub rules_from_288 : List Row
rules_from_288 =
    entry 0x2400 0x4050 0x6800 38 153 241 160 0 20 18 br_9 ports_6
    ∷ entry 0x2400 0x4050 0x6c00 38 153 241 176 0 20 18 br_9 ports_6
    ∷ entry 0x2400 0x4050 0x7000 38 153 241 192 0 20 18 br_9 ports_6
    ∷ entry 0x2400 0x4050 0x7400 38 153 241 208 0 20 18 br_9 ports_6
    ∷ entry 0x2400 0x4050 0x7800 38 153 241 224 0 20 18 br_9 ports_6
    ∷ entry 0x2400 0x4050 0x7c00 38 153 241 240 0 20 18 br_9 ports_6
    ∷ entry 0x2400 0x4050 0x8000 38 153 242 0 0 20 18 br_9 ports_6
    ∷ entry 0x2400 0x4050 0x8400 38 153 242 16 0 20 18 br_9 ports_6
    ∷ entry 0x2400 0x4050 0x8800 38 153 242 32 0 20 18 br_9 ports_6
    ∷ entry 0x2400 0x4050 0x8c00 38 153 242 48 0 20 18 br_9 ports_6
    ∷ entry 0x2400 0x4050 0x9000 38 153 242 64 0 20 18 br_9 ports_6
    ∷ entry 0x2400 0x4050 0x9400 38 153 242 80 0 20 18 br_9 ports_6
    ∷ entry 0x2400 0x4050 0x9800 38 153 242 96 0 20 18 br_9 ports_6
    ∷ []

abbrev pub rules_from_301 : List Row
rules_from_301 =
    entry 0x2400 0x4050 0x9c00 38 153 242 112 0 20 18 br_9 ports_6
    ∷ entry 0x2400 0x4050 0xa000 38 153 242 128 0 20 18 br_9 ports_6
    ∷ entry 0x2400 0x4050 0xa400 38 153 242 144 0 20 18 br_9 ports_6
    ∷ entry 0x2400 0x4050 0xa800 38 153 242 160 0 20 18 br_9 ports_6
    ∷ entry 0x2400 0x4050 0xac00 38 153 242 176 0 20 18 br_9 ports_6
    ∷ entry 0x2400 0x4050 0xb000 38 153 242 192 0 20 18 br_9 ports_6
    ∷ entry 0x2400 0x4050 0xb400 38 153 242 208 0 20 18 br_9 ports_6
    ∷ entry 0x2400 0x4050 0xb800 38 153 242 224 0 20 18 br_9 ports_6
    ∷ entry 0x2400 0x4050 0xbc00 38 153 242 240 0 20 18 br_9 ports_6
    ∷ entry 0x2400 0x4050 0xc000 38 153 243 0 0 20 18 br_9 ports_6
    ∷ entry 0x2400 0x4050 0xc400 38 153 243 16 0 20 18 br_9 ports_6
    ∷ entry 0x2400 0x4050 0xc800 38 153 243 32 0 20 18 br_9 ports_6
    ∷ entry 0x2400 0x4050 0xcc00 38 153 243 48 0 20 18 br_9 ports_6
    ∷ []

abbrev pub rules_from_314 : List Row
rules_from_314 =
    entry 0x2400 0x4050 0xd000 38 153 243 64 0 20 18 br_9 ports_6
    ∷ entry 0x2400 0x4050 0xd400 38 153 243 80 0 20 18 br_9 ports_6
    ∷ entry 0x2400 0x4050 0xd800 38 153 243 96 0 20 18 br_9 ports_6
    ∷ entry 0x2400 0x4050 0xdc00 38 153 243 112 0 20 18 br_9 ports_6
    ∷ entry 0x2400 0x4050 0xe000 38 153 243 128 0 20 18 br_9 ports_6
    ∷ entry 0x2400 0x4050 0xe400 38 153 243 144 0 20 18 br_9 ports_6
    ∷ entry 0x2400 0x4050 0xe800 38 153 243 160 0 20 18 br_9 ports_6
    ∷ entry 0x2400 0x4050 0xec00 38 153 243 176 0 20 18 br_9 ports_6
    ∷ entry 0x2400 0x4050 0xf000 38 153 243 192 0 20 18 br_9 ports_6
    ∷ entry 0x2400 0x4050 0xf400 38 153 243 208 0 20 18 br_9 ports_6
    ∷ entry 0x2400 0x4050 0xf800 38 153 243 224 0 20 18 br_9 ports_6
    ∷ entry 0x2400 0x4050 0xfc00 38 153 243 240 0 20 18 br_9 ports_6
    ∷ entry 0x2400 0x4051 0x0000 38 122 26 0 0 20 18 br_9 ports_6
    ∷ []

abbrev pub rules_from_327 : List Row
rules_from_327 =
    entry 0x2400 0x4051 0x0400 38 122 26 16 0 20 18 br_9 ports_6
    ∷ entry 0x2400 0x4051 0x0800 38 122 26 32 0 20 18 br_9 ports_6
    ∷ entry 0x2400 0x4051 0x0c00 38 122 26 48 0 20 18 br_9 ports_6
    ∷ entry 0x2400 0x4051 0x1000 38 122 26 64 0 20 18 br_9 ports_6
    ∷ entry 0x2400 0x4051 0x1400 38 122 26 80 0 20 18 br_9 ports_6
    ∷ entry 0x2400 0x4051 0x1800 38 122 26 96 0 20 18 br_9 ports_6
    ∷ entry 0x2400 0x4051 0x1c00 38 122 26 112 0 20 18 br_9 ports_6
    ∷ entry 0x2400 0x4051 0x2000 38 114 146 64 0 20 18 br_9 ports_6
    ∷ entry 0x2400 0x4051 0x2400 38 114 146 80 0 20 18 br_9 ports_6
    ∷ entry 0x2400 0x4051 0x2800 38 114 146 96 0 20 18 br_9 ports_6
    ∷ entry 0x2400 0x4051 0x2c00 38 114 146 112 0 20 18 br_9 ports_6
    ∷ entry 0x2400 0x4051 0x3000 38 114 148 192 0 20 18 br_9 ports_6
    ∷ entry 0x2400 0x4051 0x3400 38 114 148 208 0 20 18 br_9 ports_6
    ∷ []

abbrev pub rules_from_340 : List Row
rules_from_340 =
    entry 0x2400 0x4051 0x3800 38 114 148 224 0 20 18 br_9 ports_6
    ∷ entry 0x2400 0x4051 0x3c00 38 114 148 240 0 20 18 br_9 ports_6
    ∷ entry 0x2400 0x4051 0x4000 38 114 150 192 0 20 18 br_9 ports_6
    ∷ entry 0x2400 0x4051 0x4400 38 114 150 208 0 20 18 br_9 ports_6
    ∷ entry 0x2400 0x4051 0x4800 38 114 150 224 0 20 18 br_9 ports_6
    ∷ entry 0x2400 0x4051 0x4c00 38 114 150 240 0 20 18 br_9 ports_6
    ∷ entry 0x2400 0x4051 0x5000 38 114 163 64 0 20 18 br_9 ports_6
    ∷ entry 0x2400 0x4051 0x5400 38 114 163 80 0 20 18 br_9 ports_6
    ∷ entry 0x2400 0x4051 0x5800 38 114 163 96 0 20 18 br_9 ports_6
    ∷ entry 0x2400 0x4051 0x5c00 38 114 163 112 0 20 18 br_9 ports_6
    ∷ entry 0x2400 0x4051 0x6000 38 114 163 128 0 20 18 br_9 ports_6
    ∷ entry 0x2400 0x4051 0x6400 38 114 163 144 0 20 18 br_9 ports_6
    ∷ entry 0x2400 0x4051 0x6800 38 114 163 160 0 20 18 br_9 ports_6
    ∷ []

abbrev pub rules_from_353 : List Row
rules_from_353 =
    entry 0x2400 0x4051 0x6c00 38 114 163 176 0 20 18 br_9 ports_6
    ∷ entry 0x2400 0x4051 0x7000 38 114 167 64 0 20 18 br_9 ports_6
    ∷ entry 0x2400 0x4051 0x7400 38 114 167 80 0 20 18 br_9 ports_6
    ∷ entry 0x2400 0x4051 0x7800 38 114 167 96 0 20 18 br_9 ports_6
    ∷ entry 0x2400 0x4051 0x7c00 38 114 167 112 0 20 18 br_9 ports_6
    ∷ entry 0x2400 0x4051 0x8000 38 114 172 192 0 20 18 br_9 ports_6
    ∷ entry 0x2400 0x4051 0x8400 38 114 172 208 0 20 18 br_9 ports_6
    ∷ entry 0x2400 0x4051 0x8800 38 114 172 224 0 20 18 br_9 ports_6
    ∷ entry 0x2400 0x4051 0x8c00 38 114 172 240 0 20 18 br_9 ports_6
    ∷ entry 0x2400 0x4051 0x9000 38 114 177 64 0 20 18 br_9 ports_6
    ∷ entry 0x2400 0x4051 0x9400 38 114 177 80 0 20 18 br_9 ports_6
    ∷ entry 0x2400 0x4051 0x9800 38 114 177 96 0 20 18 br_9 ports_6
    ∷ entry 0x2400 0x4051 0x9c00 38 114 177 112 0 20 18 br_9 ports_6
    ∷ []

abbrev pub rules_from_366 : List Row
rules_from_366 =
    entry 0x2400 0x4051 0xa000 38 118 0 64 0 20 18 br_9 ports_6
    ∷ entry 0x2400 0x4051 0xa400 38 118 0 80 0 20 18 br_9 ports_6
    ∷ entry 0x2400 0x4051 0xa800 38 118 0 96 0 20 18 br_9 ports_6
    ∷ entry 0x2400 0x4051 0xac00 38 118 0 112 0 20 18 br_9 ports_6
    ∷ entry 0x2400 0x4051 0xb000 38 118 7 64 0 20 18 br_9 ports_6
    ∷ entry 0x2400 0x4051 0xb400 38 118 7 80 0 20 18 br_9 ports_6
    ∷ entry 0x2400 0x4051 0xb800 38 118 7 96 0 20 18 br_9 ports_6
    ∷ entry 0x2400 0x4051 0xbc00 38 118 7 112 0 20 18 br_9 ports_6
    ∷ entry 0x2400 0x4051 0xc000 38 118 8 192 0 20 18 br_9 ports_6
    ∷ entry 0x2400 0x4051 0xc400 38 118 8 208 0 20 18 br_9 ports_6
    ∷ entry 0x2400 0x4051 0xc800 38 118 8 224 0 20 18 br_9 ports_6
    ∷ entry 0x2400 0x4051 0xcc00 38 118 8 240 0 20 18 br_9 ports_6
    ∷ entry 0x2400 0x4051 0xd000 38 118 9 0 0 20 18 br_9 ports_6
    ∷ []

abbrev pub rules_from_379 : List Row
rules_from_379 =
    entry 0x2400 0x4051 0xd400 38 118 9 16 0 20 18 br_9 ports_6
    ∷ entry 0x2400 0x4051 0xd800 38 118 9 32 0 20 18 br_9 ports_6
    ∷ entry 0x2400 0x4051 0xdc00 38 118 9 48 0 20 18 br_9 ports_6
    ∷ entry 0x2400 0x4051 0xe000 38 123 218 64 0 20 18 br_9 ports_6
    ∷ entry 0x2400 0x4051 0xe400 38 123 218 80 0 20 18 br_9 ports_6
    ∷ entry 0x2400 0x4051 0xe800 38 123 218 96 0 20 18 br_9 ports_6
    ∷ entry 0x2400 0x4051 0xec00 38 123 218 112 0 20 18 br_9 ports_6
    ∷ entry 0x2400 0x4051 0xf000 38 123 220 128 0 20 18 br_9 ports_6
    ∷ entry 0x2400 0x4051 0xf400 38 123 220 144 0 20 18 br_9 ports_6
    ∷ entry 0x2400 0x4051 0xf800 38 123 220 160 0 20 18 br_9 ports_6
    ∷ entry 0x2400 0x4051 0xfc00 38 123 220 176 0 20 18 br_9 ports_6
    ∷ entry 0x2400 0x4052 0x0000 38 123 225 192 0 20 18 br_9 ports_6
    ∷ entry 0x2400 0x4052 0x0400 38 123 225 208 0 20 18 br_9 ports_6
    ∷ []

abbrev pub rules_from_392 : List Row
rules_from_392 =
    entry 0x2400 0x4052 0x0800 38 123 225 224 0 20 18 br_9 ports_6
    ∷ entry 0x2400 0x4052 0x0c00 38 123 225 240 0 20 18 br_9 ports_6
    ∷ entry 0x2400 0x4052 0x1000 38 153 134 0 0 20 18 br_9 ports_6
    ∷ entry 0x2400 0x4052 0x1400 38 153 134 16 0 20 18 br_9 ports_6
    ∷ entry 0x2400 0x4052 0x1800 38 153 134 32 0 20 18 br_9 ports_6
    ∷ entry 0x2400 0x4052 0x1c00 38 153 134 48 0 20 18 br_9 ports_6
    ∷ entry 0x2400 0x4052 0x2000 38 153 139 128 0 20 18 br_9 ports_6
    ∷ entry 0x2400 0x4052 0x2400 38 153 139 144 0 20 18 br_9 ports_6
    ∷ entry 0x2400 0x4052 0x2800 38 153 139 160 0 20 18 br_9 ports_6
    ∷ entry 0x2400 0x4052 0x2c00 38 153 139 176 0 20 18 br_9 ports_6
    ∷ entry 0x2400 0x4052 0x3000 38 153 151 64 0 20 18 br_9 ports_6
    ∷ entry 0x2400 0x4052 0x3400 38 153 151 80 0 20 18 br_9 ports_6
    ∷ entry 0x2400 0x4052 0x3800 38 153 151 96 0 20 18 br_9 ports_6
    ∷ []
