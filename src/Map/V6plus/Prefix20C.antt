-- ===== src/Map/V6plus/Prefix20C.antt =====
-- Rows of `RULES` in src/map/v6plus_rules.rs: the table ruleprefix38_20, the last third.
use mapecd.Common.{List, [], ◌∷◌}
use mapecd.Map.V6plus.Row.{Row, entry, br_9, ports_6}

abbrev pub rules_from_548 : List Row
rules_from_548 =
    entry 0x2400 0x4151 0x3800 38 180 60 224 0 20 18 br_9 ports_6
    ∷ entry 0x2400 0x4151 0x3c00 38 180 60 240 0 20 18 br_9 ports_6
    ∷ entry 0x2400 0x4151 0x4000 38 153 139 0 0 20 18 br_9 ports_6
    ∷ entry 0x2400 0x4151 0x4400 38 153 139 16 0 20 18 br_9 ports_6
    ∷ entry 0x2400 0x4151 0x4800 38 153 139 32 0 20 18 br_9 ports_6
    ∷ entry 0x2400 0x4151 0x4c00 38 153 139 48 0 20 18 br_9 ports_6
    ∷ entry 0x2400 0x4151 0x5000 38 153 139 64 0 20 18 br_9 ports_6
    ∷ entry 0x2400 0x4151 0x5400 38 153 139 80 0 20 18 br_9 ports_6
    ∷ entry 0x2400 0x4151 0x5800 38 153 139 96 0 20 18 br_9 ports_6
    ∷ entry 0x2400 0x4151 0x5c00 38 153 139 112 0 20 18 br_9 ports_6
    ∷ entry 0x2400 0x4151 0x6000 38 219 161 128 0 20 18 br_9 ports_6
    ∷ entry 0x2400 0x4151 0x6400 38 219 161 144 0 20 18 br_9 ports_6
    ∷ entry 0x2400 0x4151 0x6800 38 219 161 160 0 20 18 br_9 ports_6
    ∷ []

abbrev pub rules_from_561 : List Row
rules_from_561 =
    entry 0x2400 0x4151 0x6c00 38 219 161 176 0 20 18 br_9 ports_6
    ∷ entry 0x2400 0x4151 0x7000 38 219 161 192 0 20 18 br_9 ports_6
    ∷ entry 0x2400 0x4151 0x7400 38 219 161 208 0 20 18 br_9 ports_6
    ∷ entry 0x2400 0x4151 0x7800 38 219 161 224 0 20 18 br_9 ports_6
    ∷ entry 0x2400 0x4151 0x7c00 38 219 161 240 0 20 18 br_9 ports_6
    ∷ entry 0x2400 0x4151 0x8000 38 153 187 0 0 20 18 br_9 ports_6
    ∷ entry 0x2400 0x4151 0x8400 38 153 187 16 0 20 18 br_9 ports_6
    ∷ entry 0x2400 0x4151 0x8800 38 153 187 32 0 20 18 br_9 ports_6
    ∷ entry 0x2400 0x4151 0x8c00 38 153 187 48 0 20 18 br_9 ports_6
    ∷ entry 0x2400 0x4151 0x9000 38 153 191 0 0 20 18 br_9 ports_6
    ∷ entry 0x2400 0x4151 0x9400 38 153 191 16 0 20 18 br_9 ports_6
    ∷ entry 0x2400 0x4151 0x9800 38 153 191 32 0 20 18 br_9 ports_6
    ∷ entry 0x2400 0x4151 0x9c00 38 153 191 48 0 20 18 br_9 ports_6
    ∷ []

abbrev pub rules_from_574 : List Row
rules_from_574 =
    entry 0x2400 0x4151 0xa000 38 180 12 64 0 20 18 br_9 ports_6
    ∷ entry 0x2400 0x4151 0xa400 38 180 12 80 0 20 18 br_9 ports_6
    ∷ entry 0x2400 0x4151 0xa800 38 180 12 96 0 20 18 br_9 ports_6
    ∷ entry 0x2400 0x4151 0xac00 38 180 12 112 0 20 18 br_9 ports_6
    ∷ entry 0x2400 0x4151 0xb000 38 180 13 0 0 20 18 br_9 ports_6
    ∷ entry 0x2400 0x4151 0xb400 38 180 13 16 0 20 18 br_9 ports_6
    ∷ entry 0x2400 0x4151 0xb800 38 180 13 32 0 20 18 br_9 ports_6
    ∷ entry 0x2400 0x4151 0xbc00 38 180 13 48 0 20 18 br_9 ports_6
    ∷ entry 0x2400 0x4151 0xc000 38 124 84 128 0 20 18 br_9 ports_6
    ∷ entry 0x2400 0x4151 0xc400 38 124 84 144 0 20 18 br_9 ports_6
    ∷ entry 0x2400 0x4151 0xc800 38 124 98 192 0 20 18 br_9 ports_6
    ∷ entry 0x2400 0x4151 0xcc00 38 124 98 208 0 20 18 br_9 ports_6
    ∷ entry 0x2400 0x4151 0xd000 38 124 100 0 0 20 18 br_9 ports_6
    ∷ []

abbrev pub rules_from_587 : List Row
rules_from_587 =
    entry 0x2400 0x4151 0xd400 38 124 100 16 0 20 18 br_9 ports_6
    ∷ entry 0x2400 0x4151 0xd800 38 124 100 224 0 20 18 br_9 ports_6
    ∷ entry 0x2400 0x4151 0xdc00 38 124 100 240 0 20 18 br_9 ports_6
    ∷ entry 0x2400 0x4152 0x0000 38 180 16 0 0 20 18 br_9 ports_6
    ∷ entry 0x2400 0x4152 0x0400 38 180 16 16 0 20 18 br_9 ports_6
    ∷ entry 0x2400 0x4152 0x0800 38 180 16 32 0 20 18 br_9 ports_6
    ∷ entry 0x2400 0x4152 0x0c00 38 180 16 48 0 20 18 br_9 ports_6
    ∷ entry 0x2400 0x4152 0x1000 38 180 29 128 0 20 18 br_9 ports_6
    ∷ entry 0x2400 0x4152 0x1400 38 180 29 144 0 20 18 br_9 ports_6
    ∷ entry 0x2400 0x4152 0x1800 38 180 29 160 0 20 18 br_9 ports_6
    ∷ entry 0x2400 0x4152 0x1c00 38 180 29 176 0 20 18 br_9 ports_6
    ∷ entry 0x2400 0x4152 0x2000 38 180 59 64 0 20 18 br_9 ports_6
    ∷ entry 0x2400 0x4152 0x2400 38 180 59 80 0 20 18 br_9 ports_6
    ∷ []

abbrev pub rules_from_600 : List Row
rules_from_600 =
    entry 0x2400 0x4152 0x2800 38 180 59 96 0 20 18 br_9 ports_6
    ∷ entry 0x2400 0x4152 0x2c00 38 180 59 112 0 20 18 br_9 ports_6
    ∷ entry 0x2400 0x4152 0x3000 38 219 161 0 0 20 18 br_9 ports_6
    ∷ entry 0x2400 0x4152 0x3400 38 219 161 16 0 20 18 br_9 ports_6
    ∷ entry 0x2400 0x4152 0x3800 38 219 161 32 0 20 18 br_9 ports_6
    ∷ entry 0x2400 0x4152 0x3c00 38 219 161 48 0 20 18 br_9 ports_6
    ∷ entry 0x2400 0x4152 0x4000 38 153 129 160 0 20 18 br_9 ports_6
    ∷ entry 0x2400 0x4152 0x4400 38 153 129 176 0 20 18 br_9 ports_6
    ∷ entry 0x2400 0x4152 0x4800 38 153 130 0 0 20 18 br_9 ports_6
    ∷ entry 0x2400 0x4152 0x4c00 38 153 130 16 0 20 18 br_9 ports_6
    ∷ entry 0x2400 0x4152 0x5000 38 153 131 96 0 20 18 br_9 ports_6
    ∷ entry 0x2400 0x4152 0x5400 38 153 131 112 0 20 18 br_9 ports_6
    ∷ entry 0x2400 0x4152 0x6000 38 153 131 128 0 20 18 br_9 ports_6
    ∷ []

abbrev pub rules_from_613 : List Row
rules_from_613 =
    entry 0x2400 0x4152 0x6400 38 153 131 144 0 20 18 br_9 ports_6
    ∷ entry 0x2400 0x4152 0x6800 38 153 132 128 0 20 18 br_9 ports_6
    ∷ entry 0x2400 0x4152 0x6c00 38 153 132 144 0 20 18 br_9 ports_6
    ∷ entry 0x2400 0x4152 0x7000 38 153 134 64 0 20 18 br_9 ports_6
    ∷ entry 0x2400 0x4152 0x7400 38 153 134 80 0 20 18 br_9 ports_6
    ∷ entry 0x2400 0x4152 0x7800 38 153 137 0 0 20 18 br_9 ports_6
    ∷ entry 0x2400 0x4152 0x7c00 38 153 137 16 0 20 18 br_9 ports_6
    ∷ entry 0x2400 0x4152 0x8000 38 153 139 192 0 20 18 br_9 ports_6
    ∷ entry 0x2400 0x4152 0x8400 38 153 139 208 0 20 18 br_9 ports_6
    ∷ entry 0x2400 0x4152 0x8800 38 153 151 32 0 20 18 br_9 ports_6
    ∷ entry 0x2400 0x4152 0x8c00 38 153 151 48 0 20 18 br_9 ports_6
    ∷ entry 0x2400 0x4152 0x9000 38 153 156 96 0 20 18 br_9 ports_6
    ∷ entry 0x2400 0x4152 0x9400 38 153 156 112 0 20 18 br_9 ports_6
    ∷ []

abbrev pub rules_from_626 : List Row
rules_from_626 =
    entry 0x2400 0x4152 0x9800 38 153 156 128 0 20 18 br_9 ports_6
    ∷ entry 0x2400 0x4152 0x9c00 38 153 156 144 0 20 18 br_9 ports_6
    ∷ entry 0x2400 0x4153 0x0000 38 153 165 96 0 20 18 br_9 ports_6
    ∷ entry 0x2400 0x4153 0x0400 38 153 165 112 0 20 18 br_9 ports_6
    ∷ entry 0x2400 0x4153 0x0800 38 153 165 160 0 20 18 br_9 ports_6
    ∷ entry 0x2400 0x4153 0x0c00 38 153 165 176 0 20 18 br_9 ports_6
    ∷ entry 0x2400 0x4153 0x1000 38 153 171 224 0 20 18 br_9 ports_6
    ∷ entry 0x2400 0x4153 0x1400 38 153 171 240 0 20 18 br_9 ports_6
    ∷ entry 0x2400 0x4153 0x1800 38 153 175 0 0 20 18 br_9 ports_6
    ∷ entry 0x2400 0x4153 0x1c00 38 153 175 16 0 20 18 br_9 ports_6
    ∷ entry 0x2400 0x4153 0x2000 38 153 181 0 0 20 18 br_9 ports_6
    ∷ entry 0x2400 0x4153 0x2400 38 153 181 16 0 20 18 br_9 ports_6
    ∷ entry 0x2400 0x4153 0x2800 38 153 183 224 0 20 18 br_9 ports_6
    ∷ []

abbrev pub rules_from_639 : List Row
rules_from_639 =
    entry 0x2400 0x4153 0x2c00 38 153 183 240 0 20 18 br_9 ports_6
    ∷ entry 0x2400 0x4153 0x3000 38 153 184 128 0 20 18 br_9 ports_6
    ∷ entry 0x2400 0x4153 0x3400 38 153 184 144 0 20 18 br_9 ports_6
    ∷ entry 0x2400 0x4153 0x3800 38 153 187 224 0 20 18 br_9 ports_6
    ∷ entry 0x2400 0x4153 0x3c00 38 153 187 240 0 20 18 br_9 ports_6
    ∷ entry 0x2400 0x4153 0x4000 38 220 106 32 0 20 18 br_9 ports_6
    ∷ entry 0x2400 0x4153 0x4400 38 220 106 48 0 20 18 br_9 ports_6
    ∷ entry 0x2400 0x4153 0x4800 38 153 188 0 0 20 18 br_9 ports_6
    ∷ entry 0x2400 0x4153 0x4c00 38 153 188 16 0 20 18 br_9 ports_6
    ∷ entry 0x2400 0x4153 0x5000 38 153 190 128 0 20 18 br_9 ports_6
    ∷ entry 0x2400 0x4153 0x5400 38 153 190 144 0 20 18 br_9 ports_6
    ∷ entry 0x2400 0x4153 0x5800 38 153 191 64 0 20 18 br_9 ports_6
    ∷ entry 0x2400 0x4153 0x5c00 38 153 191 80 0 20 18 br_9 ports_6
    ∷ []

abbrev pub rules_from_652 : List Row
rules_from_652 =
    entry 0x2400 0x4153 0x6000 38 153 191 192 0 20 18 br_9 ports_6
    ∷ entry 0x2400 0x4153 0x6400 38 153 191 208 0 20 18 br_9 ports_6
    ∷ entry 0x2400 0x4153 0x6800 38 153 194 96 0 20 18 br_9 ports_6
    ∷ entry 0x2400 0x4153 0x6c00 38 153 194 112 0 20 18 br_9 ports_6
    ∷ entry 0x2400 0x4153 0x7000 38 220 106 64 0 20 18 br_9 ports_6
    ∷ entry 0x2400 0x4153 0x7400 38 220 106 80 0 20 18 br_9 ports_6
    ∷ entry 0x2400 0x4153 0x8000 38 180 12 128 0 20 18 br_9 ports_6
    ∷ entry 0x2400 0x4153 0x8400 38 180 12 144 0 20 18 br_9 ports_6
    ∷ entry 0x2400 0x4153 0x8800 38 180 26 96 0 20 18 br_9 ports_6
    ∷ entry 0x2400 0x4153 0x8c00 38 180 26 112 0 20 18 br_9 ports_6
    ∷ entry 0x2400 0x4153 0x9000 38 180 26 160 0 20 18 br_9 ports_6
    ∷ entry 0x2400 0x4153 0x9400 38 180 26 176 0 20 18 br_9 ports_6
    ∷ entry 0x2400 0x4153 0x9800 38 180 26 224 0 20 18 br_9 ports_6
    ∷ []

abbrev pub rules_from_665 : List Row
rules_from_665 =
    entry 0x2400 0x4153 0x9c00 38 180 26 240 0 20 18 br_9 ports_6
    ∷ entry 0x2400 0x4153 0xa000 38 180 30 0 0 20 18 br_9 ports_6
    ∷ entry 0x2400 0x4153 0xa400 38 180 30 16 0 20 18 br_9 ports_6
    ∷ entry 0x2400 0x4153 0xa800 38 180 31 96 0 20 18 br_9 ports_6
    ∷ entry 0x2400 0x4153 0xac00 38 180 31 112 0 20 18 br_9 ports_6
    ∷ entry 0x2400 0x4153 0xb000 38 180 32 64 0 20 18 br_9 ports_6
    ∷ entry 0x2400 0x4153 0xb400 38 180 32 80 0 20 18 br_9 ports_6
    ∷ entry 0x2400 0x4153 0xb800 38 180 34 160 0 20 18 br_9 ports_6
    ∷ entry 0x2400 0x4153 0xbc00 38 180 34 176 0 20 18 br_9 ports_6
    ∷ entry 0x2400 0x4153 0xc000 38 180 46 0 0 20 18 br_9 ports_6
    ∷ entry 0x2400 0x4153 0xc400 38 180 46 16 0 20 18 br_9 ports_6
    ∷ entry 0x2400 0x4153 0xc800 38 180 48 0 0 20 18 br_9 ports_6
    ∷ entry 0x2400 0x4153 0xcc00 38 180 48 16 0 20 18 br_9 ports_6
    ∷ []

abbrev pub rules_from_678 : List Row
rules_from_678 =
    entry 0x2400 0x4153 0xd000 38 180 50 192 0 20 18 br_9 ports_6
    ∷ entry 0x2400 0x4153 0xd400 38 180 50 208 0 20 18 br_9 ports_6
    ∷ entry 0x2400 0x4153 0xd800 38 180 53 0 0 20 18 br_9 ports_6
    ∷ entry 0x2400 0x4153 0xdc00 38 180 53 16 0 20 18 br_9 ports_6
    ∷ entry 0x2400 0x4153 0xe000 38 218 230 128 0 20 18 br_9 ports_6
    ∷ entry 0x2400 0x4153 0xe400 38 218 230 144 0 20 18 br_9 ports_6
    ∷ entry 0x2400 0x4153 0xe800 38 219 161 64 0 20 18 br_9 ports_6
    ∷ entry 0x2400 0x4153 0xec00 38 219 161 80 0 20 18 br_9 ports_6
    ∷ entry 0x2400 0x4153 0xf000 38 220 96 64 0 20 18 br_9 ports_6
    ∷ entry 0x2400 0x4153 0xf400 38 220 96 80 0 20 18 br_9 ports_6
    ∷ entry 0x2400 0x4153 0xf800 38 220 99 0 0 20 18 br_9 ports_6
    ∷ entry 0x2400 0x4153 0xfc00 38 220 99 16 0 20 18 br_9 ports_6
    ∷ []
