-- ===== src/Map/V6plus/Prefix20B.antt =====
-- Rows of `RULES` in src/map/v6plus_rules.rs: the table ruleprefix38_20, the second third.
use mapecd.Common.{List, [], ◌∷◌}
use mapecd.Map.V6plus.Row.{Row, entry, br_9, ports_6}

abbrev pub rules_from_405 : List Row
rules_from_405 =
    entry 0x2400 0x4052 0x3c00 38 153 151 112 0 20 18 br_9 ports_6
    ∷ entry 0x2400 0x4052 0x4000 38 153 170 64 0 20 18 br_9 ports_6
    ∷ entry 0x2400 0x4052 0x4400 38 153 170 80 0 20 18 br_9 ports_6
    ∷ entry 0x2400 0x4052 0x4800 38 153 170 96 0 20 18 br_9 ports_6
    ∷ entry 0x2400 0x4052 0x4c00 38 153 170 112 0 20 18 br_9 ports_6
    ∷ entry 0x2400 0x4052 0x5000 38 153 170 192 0 20 18 br_9 ports_6
    ∷ entry 0x2400 0x4052 0x5400 38 153 170 208 0 20 18 br_9 ports_6
    ∷ entry 0x2400 0x4052 0x5800 38 153 170 224 0 20 18 br_9 ports_6
    ∷ entry 0x2400 0x4052 0x5c00 38 153 170 240 0 20 18 br_9 ports_6
    ∷ entry 0x2400 0x4052 0x6000 38 61 127 128 0 20 18 br_9 ports_6
    ∷ entry 0x2400 0x4052 0x6400 38 61 127 144 0 20 18 br_9 ports_6
    ∷ entry 0x2400 0x4052 0x6800 38 114 146 0 0 20 18 br_9 ports_6
    ∷ entry 0x2400 0x4052 0x6c00 38 114 146 16 0 20 18 br_9 ports_6
    ∷ []

abbrev pub rules_from_418 : List Row
rules_from_418 =
    entry 0x2400 0x4052 0x7000 38 114 146 128 0 20 18 br_9 ports_6
    ∷ entry 0x2400 0x4052 0x7400 38 114 146 144 0 20 18 br_9 ports_6
    ∷ entry 0x2400 0x4052 0x7800 38 114 148 64 0 20 18 br_9 ports_6
    ∷ entry 0x2400 0x4052 0x7c00 38 114 148 80 0 20 18 br_9 ports_6
    ∷ entry 0x2400 0x4052 0x8000 38 114 148 160 0 20 18 br_9 ports_6
    ∷ entry 0x2400 0x4052 0x8400 38 114 148 176 0 20 18 br_9 ports_6
    ∷ entry 0x2400 0x4052 0x8800 38 114 149 0 0 20 18 br_9 ports_6
    ∷ entry 0x2400 0x4052 0x8c00 38 114 149 16 0 20 18 br_9 ports_6
    ∷ entry 0x2400 0x4052 0x9000 38 114 150 160 0 20 18 br_9 ports_6
    ∷ entry 0x2400 0x4052 0x9400 38 114 150 176 0 20 18 br_9 ports_6
    ∷ entry 0x2400 0x4052 0x9800 38 114 158 0 0 20 18 br_9 ports_6
    ∷ entry 0x2400 0x4052 0x9c00 38 114 158 16 0 20 18 br_9 ports_6
    ∷ entry 0x2400 0x4053 0x0000 38 114 162 128 0 20 18 br_9 ports_6
    ∷ []

abbrev pub rules_from_431 : List Row
rules_from_431 =
    entry 0x2400 0x4053 0x0400 38 114 162 144 0 20 18 br_9 ports_6
    ∷ entry 0x2400 0x4053 0x0800 38 114 163 0 0 20 18 br_9 ports_6
    ∷ entry 0x2400 0x4053 0x0c00 38 114 163 16 0 20 18 br_9 ports_6
    ∷ entry 0x2400 0x4053 0x1000 38 114 165 224 0 20 18 br_9 ports_6
    ∷ entry 0x2400 0x4053 0x1400 38 114 165 240 0 20 18 br_9 ports_6
    ∷ entry 0x2400 0x4053 0x1800 38 114 167 192 0 20 18 br_9 ports_6
    ∷ entry 0x2400 0x4053 0x1c00 38 114 167 208 0 20 18 br_9 ports_6
    ∷ entry 0x2400 0x4053 0x2000 38 114 177 128 0 20 18 br_9 ports_6
    ∷ entry 0x2400 0x4053 0x2400 38 114 177 144 0 20 18 br_9 ports_6
    ∷ entry 0x2400 0x4053 0x2800 38 114 178 224 0 20 18 br_9 ports_6
    ∷ entry 0x2400 0x4053 0x2c00 38 114 178 240 0 20 18 br_9 ports_6
    ∷ entry 0x2400 0x4053 0x3000 38 118 1 0 0 20 18 br_9 ports_6
    ∷ entry 0x2400 0x4053 0x3400 38 118 1 16 0 20 18 br_9 ports_6
    ∷ []

abbrev pub rules_from_444 : List Row
rules_from_444 =
    entry 0x2400 0x4053 0x3800 38 118 3 192 0 20 18 br_9 ports_6
    ∷ entry 0x2400 0x4053 0x3c00 38 118 3 208 0 20 18 br_9 ports_6
    ∷ entry 0x2400 0x4053 0x4000 38 118 6 64 0 20 18 br_9 ports_6
    ∷ entry 0x2400 0x4053 0x4400 38 118 6 80 0 20 18 br_9 ports_6
    ∷ entry 0x2400 0x4053 0x4800 38 118 7 160 0 20 18 br_9 ports_6
    ∷ entry 0x2400 0x4053 0x4c00 38 118 7 176 0 20 18 br_9 ports_6
    ∷ entry 0x2400 0x4053 0x5000 38 118 7 192 0 20 18 br_9 ports_6
    ∷ entry 0x2400 0x4053 0x5400 38 118 7 208 0 20 18 br_9 ports_6
    ∷ entry 0x2400 0x4053 0x5800 38 118 9 64 0 20 18 br_9 ports_6
    ∷ entry 0x2400 0x4053 0x5c00 38 118 9 80 0 20 18 br_9 ports_6
    ∷ entry 0x2400 0x4053 0x6000 38 118 9 128 0 20 18 br_9 ports_6
    ∷ entry 0x2400 0x4053 0x6400 38 118 9 144 0 20 18 br_9 ports_6
    ∷ entry 0x2400 0x4053 0x6800 38 118 22 128 0 20 18 br_9 ports_6
    ∷ []

abbrev pub rules_from_457 : List Row
rules_from_457 =
    entry 0x2400 0x4053 0x6c00 38 118 22 144 0 20 18 br_9 ports_6
    ∷ entry 0x2400 0x4053 0x7000 38 122 16 0 0 20 18 br_9 ports_6
    ∷ entry 0x2400 0x4053 0x7400 38 122 16 16 0 20 18 br_9 ports_6
    ∷ entry 0x2400 0x4053 0x7800 38 123 220 0 0 20 18 br_9 ports_6
    ∷ entry 0x2400 0x4053 0x7c00 38 123 220 16 0 20 18 br_9 ports_6
    ∷ entry 0x2400 0x4053 0x8000 38 153 173 0 0 20 18 br_9 ports_6
    ∷ entry 0x2400 0x4053 0x8400 38 153 173 16 0 20 18 br_9 ports_6
    ∷ entry 0x2400 0x4053 0x8800 38 153 173 32 0 20 18 br_9 ports_6
    ∷ entry 0x2400 0x4053 0x8c00 38 153 173 48 0 20 18 br_9 ports_6
    ∷ entry 0x2400 0x4053 0x9000 38 153 173 64 0 20 18 br_9 ports_6
    ∷ entry 0x2400 0x4053 0x9400 38 153 173 80 0 20 18 br_9 ports_6
    ∷ entry 0x2400 0x4053 0x9800 38 153 173 96 0 20 18 br_9 ports_6
    ∷ entry 0x2400 0x4053 0x9c00 38 153 173 112 0 20 18 br_9 ports_6
    ∷ []

abbrev pub rules_from_470 : List Row
rules_from_470 =
    entry 0x2400 0x4053 0xa000 38 153 173 128 0 20 18 br_9 ports_6
    ∷ entry 0x2400 0x4053 0xa400 38 153 173 144 0 20 18 br_9 ports_6
    ∷ entry 0x2400 0x4053 0xa800 38 153 173 160 0 20 18 br_9 ports_6
    ∷ entry 0x2400 0x4053 0xac00 38 153 173 176 0 20 18 br_9 ports_6
    ∷ entry 0x2400 0x4053 0xb000 38 153 173 192 0 20 18 br_9 ports_6
    ∷ entry 0x2400 0x4053 0xb400 38 153 173 208 0 20 18 br_9 ports_6
    ∷ entry 0x2400 0x4053 0xb800 38 153 173 224 0 20 18 br_9 ports_6
    ∷ entry 0x2400 0x4053 0xbc00 38 153 173 240 0 20 18 br_9 ports_6
    ∷ entry 0x2400 0x4053 0xc000 38 153 238 0 0 20 18 br_9 ports_6
    ∷ entry 0x2400 0x4053 0xc400 38 153 238 16 0 20 18 br_9 ports_6
    ∷ entry 0x2400 0x4053 0xc800 38 153 238 32 0 20 18 br_9 ports_6
    ∷ entry 0x2400 0x4053 0xcc00 38 153 238 48 0 20 18 br_9 ports_6
    ∷ entry 0x2400 0x4053 0xd000 38 153 238 64 0 20 18 br_9 ports_6
    ∷ []

abbrev pub rules_from_483 : List Row
rules_from_483 =
    entry 0x2400 0x4053 0xd400 38 153 238 80 0 20 18 br_9 ports_6
    ∷ entry 0x2400 0x4053 0xd800 38 153 238 96 0 20 18 br_9 ports_6
    ∷ entry 0x2400 0x4053 0xdc00 38 153 238 112 0 20 18 br_9 ports_6
    ∷ entry 0x2400 0x4053 0xe000 38 153 238 128 0 20 18 br_9 ports_6
    ∷ entry 0x2400 0x4053 0xe400 38 153 238 144 0 20 18 br_9 ports_6
    ∷ entry 0x2400 0x4053 0xe800 38 153 238 160 0 20 18 br_9 ports_6
    ∷ entry 0x2400 0x4053 0xec00 38 153 238 176 0 20 18 br_9 ports_6
    ∷ entry 0x2400 0x4053 0xf000 38 153 238 192 0 20 18 br_9 ports_6
    ∷ entry 0x2400 0x4053 0xf400 38 153 238 208 0 20 18 br_9 ports_6
    ∷ entry 0x2400 0x4053 0xf800 38 153 238 224 0 20 18 br_9 ports_6
    ∷ entry 0x2400 0x4053 0xfc00 38 153 238 240 0 20 18 br_9 ports_6
    ∷ entry 0x2400 0x4150 0x0000 38 153 239 0 0 20 18 br_9 ports_6
    ∷ entry 0x2400 0x4150 0x0400 38 153 239 16 0 20 18 br_9 ports_6
    ∷ []

abbrev pub rules_from_496 : List Row
rules_from_496 =
    entry 0x2400 0x4150 0x0800 38 153 239 32 0 20 18 br_9 ports_6
    ∷ entry 0x2400 0x4150 0x0c00 38 153 239 48 0 20 18 br_9 ports_6
    ∷ entry 0x2400 0x4150 0x1000 38 153 239 64 0 20 18 br_9 ports_6
    ∷ entry 0x2400 0x4150 0x1400 38 153 239 80 0 20 18 br_9 ports_6
    ∷ entry 0x2400 0x4150 0x1800 38 153 239 96 0 20 18 br_9 ports_6
    ∷ entry 0x2400 0x4150 0x1c00 38 153 239 112 0 20 18 br_9 ports_6
    ∷ entry 0x2400 0x4150 0x2000 38 153 239 128 0 20 18 br_9 ports_6
    ∷ entry 0x2400 0x4150 0x2400 38 153 239 144 0 20 18 br_9 ports_6
    ∷ entry 0x2400 0x4150 0x2800 38 153 239 160 0 20 18 br_9 ports_6
    ∷ entry 0x2400 0x4150 0x2c00 38 153 239 176 0 20 18 br_9 ports_6
    ∷ entry 0x2400 0x4150 0x3000 38 153 239 192 0 20 18 br_9 ports_6
    ∷ entry 0x2400 0x4150 0x3400 38 153 239 208 0 20 18 br_9 ports_6
    ∷ entry 0x2400 0x4150 0x3800 38 153 239 224 0 20 18 br_9 ports_6
    ∷ []

abbrev pub rules_from_509 : List Row
rules_from_509 =
    entry 0x2400 0x4150 0x3c00 38 153 239 240 0 20 18 br_9 ports_6
    ∷ entry 0x2400 0x4150 0x4000 38 153 252 0 0 20 18 br_9 ports_6
    ∷ entry 0x2400 0x4150 0x4400 38 153 252 16 0 20 18 br_9 ports_6
    ∷ entry 0x2400 0x4150 0x4800 38 153 252 32 0 20 18 br_9 ports_6
    ∷ entry 0x2400 0x4150 0x4c00 38 153 252 48 0 20 18 br_9 ports_6
    ∷ entry 0x2400 0x4150 0x5000 38 153 252 64 0 20 18 br_9 ports_6
    ∷ entry 0x2400 0x4150 0x5400 38 153 252 80 0 20 18 br_9 ports_6
    ∷ entry 0x2400 0x4150 0x5800 38 153 252 96 0 20 18 br_9 ports_6
    ∷ entry 0x2400 0x4150 0x5c00 38 153 252 112 0 20 18 br_9 ports_6
    ∷ entry 0x2400 0x4150 0x6000 38 153 252 128 0 20 18 br_9 ports_6
    ∷ entry 0x2400 0x4150 0x6400 38 153 252 144 0 20 18 br_9 ports_6
    ∷ entry 0x2400 0x4150 0x6800 38 153 252 160 0 20 18 br_9 ports_6
    ∷ entry 0x2400 0x4150 0x6c00 38 153 252 176 0 20 18 br_9 ports_6
    ∷ []

abbrev pub rules_from_522 : List Row
rules_from_522 =
    entry 0x2400 0x4150 0x7000 38 153 252 192 0 20 18 br_9 ports_6
    ∷ entry 0x2400 0x4150 0x7400 38 153 252 208 0 20 18 br_9 ports_6
    ∷ entry 0x2400 0x4150 0x7800 38 153 252 224 0 20 18 br_9 ports_6
    ∷ entry 0x2400 0x4150 0x7c00 38 153 252 240 0 20 18 br_9 ports_6
    ∷ entry 0x2400 0x4150 0x8000 38 123 222 96 0 20 18 br_9 ports_6
    ∷ entry 0x2400 0x4150 0x8400 38 123 222 112 0 20 18 br_9 ports_6
    ∷ entry 0x2400 0x4150 0x8800 38 123 225 96 0 20 18 br_9 ports_6
    ∷ entry 0x2400 0x4150 0x8c00 38 123 225 112 0 20 18 br_9 ports_6
    ∷ entry 0x2400 0x4150 0x9000 38 123 225 160 0 20 18 br_9 ports_6
    ∷ entry 0x2400 0x4150 0x9400 38 123 225 176 0 20 18 br_9 ports_6
    ∷ entry 0x2400 0x4150 0x9800 38 124 84 96 0 20 18 br_9 ports_6
    ∷ entry 0x2400 0x4150 0x9c00 38 124 84 112 0 20 18 br_9 ports_6
    ∷ entry 0x2400 0x4151 0x0000 38 180 60 0 0 20 18 br_9 ports_6
    ∷ []

abbrev pub rules_from_535 : List Row
rules_from_535 =
    entry 0x2400 0x4151 0x0400 38 180 60 16 0 20 18 br_9 ports_6
    ∷ entry 0x2400 0x4151 0x0800 38 180 60 32 0 20 18 br_9 ports_6
    ∷ entry 0x2400 0x4151 0x0c00 38 180 60 48 0 20 18 br_9 ports_6
    ∷ entry 0x2400 0x4151 0x1000 38 180 60 64 0 20 18 br_9 ports_6
    ∷ entry 0x2400 0x4151 0x1400 38 180 60 80 0 20 18 br_9 ports_6
    ∷ entry 0x2400 0x4151 0x1800 38 180 60 96 0 20 18 br_9 ports_6
    ∷ entry 0x2400 0x4151 0x1c00 38 180 60 112 0 20 18 br_9 ports_6
    ∷ entry 0x2400 0x4151 0x2000 38 180 60 128 0 20 18 br_9 ports_6
    ∷ entry 0x2400 0x4151 0x2400 38 180 60 144 0 20 18 br_9 ports_6
    ∷ entry 0x2400 0x4151 0x2800 38 180 60 160 0 20 18 br_9 ports_6
    ∷ entry 0x2400 0x4151 0x2c00 38 180 60 176 0 20 18 br_9 ports_6
    ∷ entry 0x2400 0x4151 0x3000 38 180 60 192 0 20 18 br_9 ports_6
    ∷ entry 0x2400 0x4151 0x3400 38 180 60 208 0 20 18 br_9 ports_6
    ∷ []
