-- ===== src/Map/V6plus/Prefix38A.antt =====
-- Rows of `RULES` in src/map/v6plus_rules.rs: the table ruleprefix38, to the BR 2001:260:700:1::1:275.
use mapecd.Common.{List, [], ◌∷◌}
use mapecd.Map.V6plus.Row.{Row, entry, br_275, ports_8}

abbrev pub rules_from_0 : List Row
rules_from_0 =
    entry 0x2404 0x7a82 0x0000 38 125 196 208 0 22 18 br_275 ports_8
    ∷ entry 0x2404 0x7a82 0x0400 38 125 196 212 0 22 18 br_275 ports_8
    ∷ entry 0x2404 0x7a82 0x0800 38 125 198 140 0 22 18 br_275 ports_8
    ∷ entry 0x2404 0x7a82 0x0c00 38 125 198 144 0 22 18 br_275 ports_8
    ∷ entry 0x2404 0x7a82 0x1000 38 125 198 212 0 22 18 br_275 ports_8
    ∷ entry 0x2404 0x7a82 0x1400 38 125 198 244 0 22 18 br_275 ports_8
    ∷ entry 0x2404 0x7a82 0x1800 38 122 131 104 0 22 18 br_275 ports_8
    ∷ entry 0x2404 0x7a82 0x1c00 38 125 195 20 0 22 18 br_275 ports_8
    ∷ entry 0x2404 0x7a82 0x2000 38 133 203 160 0 22 18 br_275 ports_8
    ∷ entry 0x2404 0x7a82 0x2400 38 133 203 164 0 22 18 br_275 ports_8
    ∷ entry 0x2404 0x7a82 0x2800 38 133 203 168 0 22 18 br_275 ports_8
    ∷ entry 0x2404 0x7a82 0x2c00 38 133 203 172 0 22 18 br_275 ports_8
    ∷ entry 0x2404 0x7a82 0x3000 38 133 203 176 0 22 18 br_275 ports_8
    ∷ []

abbrev pub rules_from_13 : List Row
rules_from_13 =
    entry 0x2404 0x7a82 0x3400 38 133 203 180 0 22 18 br_275 ports_8
    ∷ entry 0x2404 0x7a82 0x3800 38 133 203 184 0 22 18 br_275 ports_8
    ∷ entry 0x2404 0x7a82 0x3c00 38 133 203 188 0 22 18 br_275 ports_8
    ∷ entry 0x2404 0x7a82 0x4000 38 133 209 0 0 22 18 br_275 ports_8
    ∷ entry 0x2404 0x7a82 0x4400 38 133 209 4 0 22 18 br_275 ports_8
    ∷ entry 0x2404 0x7a82 0x4800 38 133 209 8 0 22 18 br_275 ports_8
    ∷ entry 0x2404 0x7a82 0x4c00 38 133 209 12 0 22 18 br_275 ports_8
    ∷ entry 0x2404 0x7a82 0x5000 38 133 209 16 0 22 18 br_275 ports_8
    ∷ entry 0x2404 0x7a82 0x5400 38 133 209 20 0 22 18 br_275 ports_8
    ∷ entry 0x2404 0x7a82 0x5800 38 133 209 24 0 22 18 br_275 ports_8
    ∷ entry 0x2404 0x7a82 0x5c00 38 133 209 28 0 22 18 br_275 ports_8
    ∷ entry 0x2404 0x7a82 0x6000 38 133 204 192 0 22 18 br_275 ports_8
    ∷ entry 0x2404 0x7a82 0x6400 38 133 204 196 0 22 18 br_275 ports_8
    ∷ []

abbrev pub rules_from_26 : List Row
rules_from_26 =
    entry 0x2404 0x7a82 0x6800 38 133 204 200 0 22 18 br_275 ports_8
    ∷ entry 0x2404 0x7a82 0x6c00 38 133 204 204 0 22 18 br_275 ports_8
    ∷ entry 0x2404 0x7a82 0x7000 38 133 204 208 0 22 18 br_275 ports_8
    ∷ entry 0x2404 0x7a82 0x7400 38 133 204 212 0 22 18 br_275 ports_8
    ∷ entry 0x2404 0x7a82 0x7800 38 133 204 216 0 22 18 br_275 ports_8
    ∷ entry 0x2404 0x7a82 0x7c00 38 133 204 220 0 22 18 br_275 ports_8
    ∷ entry 0x2404 0x7a82 0x8000 38 133 203 224 0 22 18 br_275 ports_8
    ∷ entry 0x2404 0x7a82 0x8400 38 133 203 228 0 22 18 br_275 ports_8
    ∷ entry 0x2404 0x7a82 0x8800 38 133 203 232 0 22 18 br_275 ports_8
    ∷ entry 0x2404 0x7a82 0x8c00 38 133 203 236 0 22 18 br_275 ports_8
    ∷ entry 0x2404 0x7a82 0x9000 38 133 203 240 0 22 18 br_275 ports_8
    ∷ entry 0x2404 0x7a82 0x9400 38 133 203 244 0 22 18 br_275 ports_8
    ∷ entry 0x2404 0x7a82 0x9800 38 133 203 248 0 22 18 br_275 ports_8
    ∷ []

abbrev pub rules_from_39 : List Row
rules_from_39 =
    entry 0x2404 0x7a82 0x9c00 38 133 203 252 0 22 18 br_275 ports_8
    ∷ entry 0x2404 0x7a82 0xa000 38 125 194 192 0 22 18 br_275 ports_8
    ∷ entry 0x2404 0x7a82 0xa400 38 125 194 196 0 22 18 br_275 ports_8
    ∷ entry 0x2404 0x7a82 0xa800 38 125 194 200 0 22 18 br_275 ports_8
    ∷ entry 0x2404 0x7a82 0xac00 38 125 194 204 0 22 18 br_275 ports_8
    ∷ entry 0x2404 0x7a82 0xb000 38 119 239 128 0 22 18 br_275 ports_8
    ∷ entry 0x2404 0x7a82 0xb400 38 119 239 132 0 22 18 br_275 ports_8
    ∷ entry 0x2404 0x7a82 0xb800 38 119 239 136 0 22 18 br_275 ports_8
    ∷ entry 0x2404 0x7a82 0xbc00 38 119 239 140 0 22 18 br_275 ports_8
    ∷ entry 0x2404 0x7a82 0xc000 38 125 194 32 0 22 18 br_275 ports_8
    ∷ entry 0x2404 0x7a82 0xc400 38 125 194 36 0 22 18 br_275 ports_8
    ∷ entry 0x2404 0x7a82 0xc800 38 125 194 40 0 22 18 br_275 ports_8
    ∷ entry 0x2404 0x7a82 0xcc00 38 125 194 44 0 22 18 br_275 ports_8
    ∷ []

abbrev pub rules_from_52 : List Row
rules_from_52 =
    entry 0x2404 0x7a82 0xd000 38 125 195 24 0 22 18 br_275 ports_8
    ∷ entry 0x2404 0x7a82 0xd400 38 125 195 28 0 22 18 br_275 ports_8
    ∷ entry 0x2404 0x7a82 0xd800 38 122 130 192 0 22 18 br_275 ports_8
    ∷ entry 0x2404 0x7a82 0xdc00 38 122 130 196 0 22 18 br_275 ports_8
    ∷ entry 0x2404 0x7a82 0xe000 38 122 135 64 0 22 18 br_275 ports_8
    ∷ entry 0x2404 0x7a82 0xe400 38 122 135 68 0 22 18 br_275 ports_8
    ∷ entry 0x2404 0x7a82 0xe800 38 125 192 240 0 22 18 br_275 ports_8
    ∷ entry 0x2404 0x7a82 0xec00 38 125 192 244 0 22 18 br_275 ports_8
    ∷ entry 0x2404 0x7a82 0xf000 38 125 193 176 0 22 18 br_275 ports_8
    ∷ entry 0x2404 0x7a82 0xf400 38 125 193 180 0 22 18 br_275 ports_8
    ∷ entry 0x2404 0x7a82 0xf800 38 122 130 176 0 22 18 br_275 ports_8
    ∷ entry 0x2404 0x7a82 0xfc00 38 122 130 180 0 22 18 br_275 ports_8
    ∷ entry 0x2404 0x7a83 0x0000 38 122 131 24 0 22 18 br_275 ports_8
    ∷ []

abbrev pub rules_from_65 : List Row
rules_from_65 =
    entry 0x2404 0x7a83 0x0400 38 122 131 28 0 22 18 br_275 ports_8
    ∷ entry 0x2404 0x7a83 0x0800 38 122 131 32 0 22 18 br_275 ports_8
    ∷ entry 0x2404 0x7a83 0x0c00 38 122 131 36 0 22 18 br_275 ports_8
    ∷ entry 0x2404 0x7a83 0x1000 38 119 243 112 0 22 18 br_275 ports_8
    ∷ entry 0x2404 0x7a83 0x1400 38 119 243 116 0 22 18 br_275 ports_8
    ∷ entry 0x2404 0x7a83 0x1800 38 219 107 136 0 22 18 br_275 ports_8
    ∷ entry 0x2404 0x7a83 0x1c00 38 219 107 140 0 22 18 br_275 ports_8
    ∷ entry 0x2404 0x7a83 0x2000 38 220 144 224 0 22 18 br_275 ports_8
    ∷ entry 0x2404 0x7a83 0x2400 38 220 144 228 0 22 18 br_275 ports_8
    ∷ entry 0x2404 0x7a83 0x2800 38 125 194 64 0 22 18 br_275 ports_8
    ∷ entry 0x2404 0x7a83 0x2c00 38 125 194 68 0 22 18 br_275 ports_8
    ∷ entry 0x2404 0x7a83 0x3000 38 221 171 40 0 22 18 br_275 ports_8
    ∷ entry 0x2404 0x7a83 0x3400 38 221 171 44 0 22 18 br_275 ports_8
    ∷ []

abbrev pub rules_from_78 : List Row
rules_from_78 =
    entry 0x2404 0x7a83 0x3800 38 110 233 80 0 22 18 br_275 ports_8
    ∷ entry 0x2404 0x7a83 0x3c00 38 110 233 84 0 22 18 br_275 ports_8
    ∷ entry 0x2404 0x7a83 0x4000 38 119 241 184 0 22 18 br_275 ports_8
    ∷ entry 0x2404 0x7a83 0x4400 38 119 241 188 0 22 18 br_275 ports_8
    ∷ entry 0x2404 0x7a83 0x4800 38 119 243 56 0 22 18 br_275 ports_8
    ∷ entry 0x2404 0x7a83 0x4c00 38 119 243 60 0 22 18 br_275 ports_8
    ∷ entry 0x2404 0x7a83 0x5000 38 125 199 8 0 22 18 br_275 ports_8
    ∷ entry 0x2404 0x7a83 0x5400 38 125 199 12 0 22 18 br_275 ports_8
    ∷ entry 0x2404 0x7a83 0x5800 38 125 196 96 0 22 18 br_275 ports_8
    ∷ entry 0x2404 0x7a83 0x5c00 38 125 196 100 0 22 18 br_275 ports_8
    ∷ entry 0x2404 0x7a83 0x6000 38 122 130 104 0 22 18 br_275 ports_8
    ∷ entry 0x2404 0x7a83 0x6400 38 122 130 108 0 22 18 br_275 ports_8
    ∷ entry 0x2404 0x7a83 0x6800 38 122 130 112 0 22 18 br_275 ports_8
    ∷ []

abbrev pub rules_from_91 : List Row
rules_from_91 =
    entry 0x2404 0x7a83 0x6c00 38 122 130 116 0 22 18 br_275 ports_8
    ∷ entry 0x2404 0x7a83 0x7000 38 49 129 152 0 22 18 br_275 ports_8
    ∷ entry 0x2404 0x7a83 0x7400 38 49 129 156 0 22 18 br_275 ports_8
    ∷ entry 0x2404 0x7a83 0x7800 38 49 129 192 0 22 18 br_275 ports_8
    ∷ entry 0x2404 0x7a83 0x7c00 38 49 129 196 0 22 18 br_275 ports_8
    ∷ entry 0x2404 0x7a83 0x8000 38 49 129 120 0 22 18 br_275 ports_8
    ∷ entry 0x2404 0x7a83 0x8400 38 49 129 124 0 22 18 br_275 ports_8
    ∷ entry 0x2404 0x7a83 0x8800 38 221 170 40 0 22 18 br_275 ports_8
    ∷ entry 0x2404 0x7a83 0x8c00 38 221 170 44 0 22 18 br_275 ports_8
    ∷ entry 0x2404 0x7a83 0x9000 38 60 239 108 0 22 18 br_275 ports_8
    ∷ entry 0x2404 0x7a83 0x9400 38 60 236 24 0 22 18 br_275 ports_8
    ∷ entry 0x2404 0x7a83 0x9800 38 122 130 120 0 22 18 br_275 ports_8
    ∷ entry 0x2404 0x7a83 0x9c00 38 60 236 84 0 22 18 br_275 ports_8
    ∷ []

abbrev pub rules_from_104 : List Row
rules_from_104 =
    entry 0x2404 0x7a83 0xa000 38 60 239 180 0 22 18 br_275 ports_8
    ∷ entry 0x2404 0x7a83 0xa400 38 60 239 184 0 22 18 br_275 ports_8
    ∷ entry 0x2404 0x7a83 0xa800 38 118 110 136 0 22 18 br_275 ports_8
    ∷ entry 0x2404 0x7a83 0xac00 38 119 242 136 0 22 18 br_275 ports_8
    ∷ entry 0x2404 0x7a83 0xb000 38 60 238 188 0 22 18 br_275 ports_8
    ∷ entry 0x2404 0x7a83 0xb400 38 60 238 204 0 22 18 br_275 ports_8
    ∷ entry 0x2404 0x7a83 0xb800 38 122 134 52 0 22 18 br_275 ports_8
    ∷ entry 0x2404 0x7a83 0xbc00 38 119 244 60 0 22 18 br_275 ports_8
    ∷ entry 0x2404 0x7a83 0xc000 38 119 243 100 0 22 18 br_275 ports_8
    ∷ entry 0x2404 0x7a83 0xc400 38 221 170 236 0 22 18 br_275 ports_8
    ∷ entry 0x2404 0x7a83 0xc800 38 221 171 48 0 22 18 br_275 ports_8
    ∷ entry 0x2404 0x7a83 0xcc00 38 60 238 36 0 22 18 br_275 ports_8
    ∷ entry 0x2404 0x7a83 0xd000 38 125 195 236 0 22 18 br_275 ports_8
    ∷ []

abbrev pub rules_from_117 : List Row
rules_from_117 =
    entry 0x2404 0x7a83 0xd400 38 60 236 20 0 22 18 br_275 ports_8
    ∷ entry 0x2404 0x7a83 0xd800 38 118 108 76 0 22 18 br_275 ports_8
    ∷ entry 0x2404 0x7a83 0xdc00 38 118 110 108 0 22 18 br_275 ports_8
    ∷ entry 0x2404 0x7a83 0xe000 38 118 110 112 0 22 18 br_275 ports_8
    ∷ entry 0x2404 0x7a83 0xe400 38 118 111 88 0 22 18 br_275 ports_8
    ∷ entry 0x2404 0x7a83 0xe800 38 118 111 228 0 22 18 br_275 ports_8
    ∷ entry 0x2404 0x7a83 0xec00 38 118 111 236 0 22 18 br_275 ports_8
    ∷ entry 0x2404 0x7a83 0xf000 38 119 241 148 0 22 18 br_275 ports_8
    ∷ entry 0x2404 0x7a83 0xf400 38 119 242 124 0 22 18 br_275 ports_8
    ∷ entry 0x2404 0x7a83 0xf800 38 125 194 28 0 22 18 br_275 ports_8
    ∷ entry 0x2404 0x7a83 0xfc00 38 125 194 96 0 22 18 br_275 ports_8
    ∷ []
