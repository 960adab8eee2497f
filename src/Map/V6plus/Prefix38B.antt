-- ===== src/Map/V6plus/Prefix38B.antt =====
-- Rows of `RULES` in src/map/v6plus_rules.rs: the table ruleprefix38, to the BR 2001:260:700:1::1:276.
use mapecd.Common.{List, [], ◌∷◌}
use mapecd.Map.V6plus.Row.{Row, entry, br_276, ports_8}

abbrev pub rules_from_128 : List Row
rules_from_128 =
    entry 0x2404 0x7a86 0x0000 38 133 204 128 0 22 18 br_276 ports_8
    ∷ entry 0x2404 0x7a86 0x0400 38 133 204 132 0 22 18 br_276 ports_8
    ∷ entry 0x2404 0x7a86 0x0800 38 133 204 136 0 22 18 br_276 ports_8
    ∷ entry 0x2404 0x7a86 0x0c00 38 133 204 140 0 22 18 br_276 ports_8
    ∷ entry 0x2404 0x7a86 0x1000 38 133 204 144 0 22 18 br_276 ports_8
    ∷ entry 0x2404 0x7a86 0x1400 38 133 204 148 0 22 18 br_276 ports_8
    ∷ entry 0x2404 0x7a86 0x1800 38 133 204 152 0 22 18 br_276 ports_8
    ∷ entry 0x2404 0x7a86 0x1c00 38 133 204 156 0 22 18 br_276 ports_8
    ∷ entry 0x2404 0x7a86 0x2000 38 133 204 160 0 22 18 br_276 ports_8
    ∷ entry 0x2404 0x7a86 0x2400 38 133 204 164 0 22 18 br_276 ports_8
    ∷ entry 0x2404 0x7a86 0x2800 38 133 204 168 0 22 18 br_276 ports_8
    ∷ entry 0x2404 0x7a86 0x2c00 38 133 204 172 0 22 18 br_276 ports_8
    ∷ entry 0x2404 0x7a86 0x3000 38 133 204 176 0 22 18 br_276 ports_8
    ∷ []

abbrev pub rules_from_141 : List Row
rules_from_141 =
    entry 0x2404 0x7a86 0x3400 38 133 204 180 0 22 18 br_276 ports_8
    ∷ entry 0x2404 0x7a86 0x3800 38 133 204 184 0 22 18 br_276 ports_8
    ∷ entry 0x2404 0x7a86 0x3c00 38 133 204 188 0 22 18 br_276 ports_8
    ∷ entry 0x2404 0x7a86 0x4000 38 133 203 192 0 22 18 br_276 ports_8
    ∷ entry 0x2404 0x7a86 0x4400 38 133 203 196 0 22 18 br_276 ports_8
    ∷ entry 0x2404 0x7a86 0x4800 38 133 203 200 0 22 18 br_276 ports_8
    ∷ entry 0x2404 0x7a86 0x4c00 38 133 203 204 0 22 18 br_276 ports_8
    ∷ entry 0x2404 0x7a86 0x5000 38 133 203 208 0 22 18 br_276 ports_8
    ∷ entry 0x2404 0x7a86 0x5400 38 133 203 212 0 22 18 br_276 ports_8
    ∷ entry 0x2404 0x7a86 0x5800 38 133 203 216 0 22 18 br_276 ports_8
    ∷ entry 0x2404 0x7a86 0x5c00 38 133 203 220 0 22 18 br_276 ports_8
    ∷ entry 0x2404 0x7a86 0x6000 38 133 204 0 0 22 18 br_276 ports_8
    ∷ entry 0x2404 0x7a86 0x6400 38 133 204 4 0 22 18 br_276 ports_8
    ∷ []

abbrev pub rules_from_154 : List Row
rules_from_154 =
    entry 0x2404 0x7a86 0x6800 38 133 204 8 0 22 18 br_276 ports_8
    ∷ entry 0x2404 0x7a86 0x6c00 38 133 204 12 0 22 18 br_276 ports_8
    ∷ entry 0x2404 0x7a86 0x7000 38 133 204 16 0 22 18 br_276 ports_8
    ∷ entry 0x2404 0x7a86 0x7400 38 133 204 20 0 22 18 br_276 ports_8
    ∷ entry 0x2404 0x7a86 0x7800 38 133 204 24 0 22 18 br_276 ports_8
    ∷ entry 0x2404 0x7a86 0x7c00 38 133 204 28 0 22 18 br_276 ports_8
    ∷ entry 0x2404 0x7a86 0x8000 38 133 204 64 0 22 18 br_276 ports_8
    ∷ entry 0x2404 0x7a86 0x8400 38 133 204 68 0 22 18 br_276 ports_8
    ∷ entry 0x2404 0x7a86 0x8800 38 133 204 72 0 22 18 br_276 ports_8
    ∷ entry 0x2404 0x7a86 0x8c00 38 133 204 76 0 22 18 br_276 ports_8
    ∷ entry 0x2404 0x7a86 0x9000 38 133 204 80 0 22 18 br_276 ports_8
    ∷ entry 0x2404 0x7a86 0x9400 38 133 204 84 0 22 18 br_276 ports_8
    ∷ entry 0x2404 0x7a86 0x9800 38 133 204 88 0 22 18 br_276 ports_8
    ∷ []

abbrev pub rules_from_167 : List Row
rules_from_167 =
    entry 0x2404 0x7a86 0x9c00 38 133 204 92 0 22 18 br_276 ports_8
    ∷ entry 0x2404 0x7a86 0xa000 38 221 171 112 0 22 18 br_276 ports_8
    ∷ entry 0x2404 0x7a86 0xa400 38 221 171 116 0 22 18 br_276 ports_8
    ∷ entry 0x2404 0x7a86 0xa800 38 221 171 120 0 22 18 br_276 ports_8
    ∷ entry 0x2404 0x7a86 0xac00 38 221 171 124 0 22 18 br_276 ports_8
    ∷ entry 0x2404 0x7a86 0xb000 38 125 195 184 0 22 18 br_276 ports_8
    ∷ entry 0x2404 0x7a86 0xb400 38 125 196 216 0 22 18 br_276 ports_8
    ∷ entry 0x2404 0x7a86 0xb800 38 221 171 108 0 22 18 br_276 ports_8
    ∷ entry 0x2404 0x7a86 0xbc00 38 219 107 152 0 22 18 br_276 ports_8
    ∷ entry 0x2404 0x7a86 0xc000 38 60 239 128 0 22 18 br_276 ports_8
    ∷ entry 0x2404 0x7a86 0xc400 38 60 239 132 0 22 18 br_276 ports_8
    ∷ entry 0x2404 0x7a86 0xc800 38 60 239 136 0 22 18 br_276 ports_8
    ∷ entry 0x2404 0x7a86 0xcc00 38 60 239 140 0 22 18 br_276 ports_8
    ∷ []

abbrev pub rules_from_180 : List Row
rules_from_180 =
    entry 0x2404 0x7a86 0xd000 38 118 110 80 0 22 18 br_276 ports_8
    ∷ entry 0x2404 0x7a86 0xd400 38 118 110 84 0 22 18 br_276 ports_8
    ∷ entry 0x2404 0x7a86 0xd800 38 118 110 88 0 22 18 br_276 ports_8
    ∷ entry 0x2404 0x7a86 0xdc00 38 118 110 92 0 22 18 br_276 ports_8
    ∷ entry 0x2404 0x7a86 0xe000 38 125 194 176 0 22 18 br_276 ports_8
    ∷ entry 0x2404 0x7a86 0xe400 38 125 194 180 0 22 18 br_276 ports_8
    ∷ entry 0x2404 0x7a86 0xe800 38 125 194 184 0 22 18 br_276 ports_8
    ∷ entry 0x2404 0x7a86 0xec00 38 125 194 188 0 22 18 br_276 ports_8
    ∷ entry 0x2404 0x7a86 0xf000 38 60 239 112 0 22 18 br_276 ports_8
    ∷ entry 0x2404 0x7a86 0xf400 38 60 239 116 0 22 18 br_276 ports_8
    ∷ entry 0x2404 0x7a86 0xf800 38 60 239 120 0 22 18 br_276 ports_8
    ∷ entry 0x2404 0x7a86 0xfc00 38 60 239 124 0 22 18 br_276 ports_8
    ∷ entry 0x2404 0x7a87 0x0000 38 125 195 56 0 22 18 br_276 ports_8
    ∷ []

abbrev pub rules_from_193 : List Row
rules_from_193 =
    entry 0x2404 0x7a87 0x0400 38 125 195 60 0 22 18 br_276 ports_8
    ∷ entry 0x2404 0x7a87 0x0800 38 125 196 32 0 22 18 br_276 ports_8
    ∷ entry 0x2404 0x7a87 0x0c00 38 125 196 36 0 22 18 br_276 ports_8
    ∷ entry 0x2404 0x7a87 0x1000 38 118 108 80 0 22 18 br_276 ports_8
    ∷ entry 0x2404 0x7a87 0x1400 38 118 108 84 0 22 18 br_276 ports_8
    ∷ entry 0x2404 0x7a87 0x1800 38 118 111 80 0 22 18 br_276 ports_8
    ∷ entry 0x2404 0x7a87 0x1c00 38 118 111 84 0 22 18 br_276 ports_8
    ∷ entry 0x2404 0x7a87 0x2000 38 218 227 176 0 22 18 br_276 ports_8
    ∷ entry 0x2404 0x7a87 0x2400 38 218 227 180 0 22 18 br_276 ports_8
    ∷ entry 0x2404 0x7a87 0x2800 38 60 239 208 0 22 18 br_276 ports_8
    ∷ entry 0x2404 0x7a87 0x2c00 38 60 239 212 0 22 18 br_276 ports_8
    ∷ entry 0x2404 0x7a87 0x3000 38 118 109 56 0 22 18 br_276 ports_8
    ∷ entry 0x2404 0x7a87 0x3400 38 118 109 60 0 22 18 br_276 ports_8
    ∷ []

abbrev pub rules_from_206 : List Row
rules_from_206 =
    entry 0x2404 0x7a87 0x3800 38 122 131 88 0 22 18 br_276 ports_8
    ∷ entry 0x2404 0x7a87 0x3c00 38 122 131 92 0 22 18 br_276 ports_8
    ∷ entry 0x2404 0x7a87 0x4000 38 122 131 96 0 22 18 br_276 ports_8
    ∷ entry 0x2404 0x7a87 0x4400 38 122 131 100 0 22 18 br_276 ports_8
    ∷ entry 0x2404 0x7a87 0x4800 38 122 130 48 0 22 18 br_276 ports_8
    ∷ entry 0x2404 0x7a87 0x4c00 38 122 130 52 0 22 18 br_276 ports_8
    ∷ entry 0x2404 0x7a87 0x5000 38 125 198 224 0 22 18 br_276 ports_8
    ∷ entry 0x2404 0x7a87 0x5400 38 125 198 228 0 22 18 br_276 ports_8
    ∷ entry 0x2404 0x7a87 0x5800 38 119 243 104 0 22 18 br_276 ports_8
    ∷ entry 0x2404 0x7a87 0x5c00 38 119 243 108 0 22 18 br_276 ports_8
    ∷ entry 0x2404 0x7a87 0x6000 38 118 109 152 0 22 18 br_276 ports_8
    ∷ entry 0x2404 0x7a87 0x6400 38 118 109 156 0 22 18 br_276 ports_8
    ∷ entry 0x2404 0x7a87 0x6800 38 118 111 104 0 22 18 br_276 ports_8
    ∷ []

abbrev pub rules_from_219 : List Row
rules_from_219 =
    entry 0x2404 0x7a87 0x6c00 38 118 111 108 0 22 18 br_276 ports_8
    ∷ entry 0x2404 0x7a87 0x7000 38 119 239 48 0 22 18 br_276 ports_8
    ∷ entry 0x2404 0x7a87 0x7400 38 119 239 52 0 22 18 br_276 ports_8
    ∷ entry 0x2404 0x7a87 0x7800 38 122 130 16 0 22 18 br_276 ports_8
    ∷ entry 0x2404 0x7a87 0x7c00 38 122 130 20 0 22 18 br_276 ports_8
    ∷ entry 0x2404 0x7a87 0x8000 38 125 196 128 0 22 18 br_276 ports_8
    ∷ entry 0x2404 0x7a87 0x8400 38 125 196 132 0 22 18 br_276 ports_8
    ∷ entry 0x2404 0x7a87 0x8800 38 122 131 48 0 22 18 br_276 ports_8
    ∷ entry 0x2404 0x7a87 0x8c00 38 122 131 52 0 22 18 br_276 ports_8
    ∷ entry 0x2404 0x7a87 0x9000 38 122 134 104 0 22 18 br_276 ports_8
    ∷ entry 0x2404 0x7a87 0x9400 38 122 134 108 0 22 18 br_276 ports_8
    ∷ entry 0x2404 0x7a87 0x9800 38 60 238 208 0 22 18 br_276 ports_8
    ∷ entry 0x2404 0x7a87 0x9c00 38 60 238 212 0 22 18 br_276 ports_8
    ∷ []

abbrev pub rules_from_232 : List Row
rules_from_232 =
    entry 0x2404 0x7a87 0xa000 38 220 144 192 0 22 18 br_276 ports_8
    ∷ entry 0x2404 0x7a87 0xa400 38 220 144 196 0 22 18 br_276 ports_8
    ∷ entry 0x2404 0x7a87 0xa800 38 110 233 48 0 22 18 br_276 ports_8
    ∷ entry 0x2404 0x7a87 0xac00 38 122 131 84 0 22 18 br_276 ports_8
    ∷ entry 0x2404 0x7a87 0xb000 38 111 169 152 0 22 18 br_276 ports_8
    ∷ entry 0x2404 0x7a87 0xb400 38 119 241 132 0 22 18 br_276 ports_8
    ∷ entry 0x2404 0x7a87 0xb800 38 119 241 136 0 22 18 br_276 ports_8
    ∷ entry 0x2404 0x7a87 0xbc00 38 119 244 68 0 22 18 br_276 ports_8
    ∷ entry 0x2404 0x7a87 0xc000 38 60 236 92 0 22 18 br_276 ports_8
    ∷ entry 0x2404 0x7a87 0xc400 38 60 237 108 0 22 18 br_276 ports_8
    ∷ entry 0x2404 0x7a87 0xc800 38 60 238 12 0 22 18 br_276 ports_8
    ∷ entry 0x2404 0x7a87 0xcc00 38 60 238 44 0 22 18 br_276 ports_8
    ∷ entry 0x2404 0x7a87 0xd000 38 60 238 216 0 22 18 br_276 ports_8
    ∷ []

abbrev pub rules_from_245 : List Row
rules_from_245 =
    entry 0x2404 0x7a87 0xd400 38 60 238 232 0 22 18 br_276 ports_8
    ∷ entry 0x2404 0x7a87 0xd800 38 49 129 72 0 22 18 br_276 ports_8
    ∷ entry 0x2404 0x7a87 0xdc00 38 110 233 4 0 22 18 br_276 ports_8
    ∷ entry 0x2404 0x7a87 0xe000 38 110 233 192 0 22 18 br_276 ports_8
    ∷ entry 0x2404 0x7a87 0xe400 38 119 243 20 0 22 18 br_276 ports_8
    ∷ entry 0x2404 0x7a87 0xe800 38 119 243 24 0 22 18 br_276 ports_8
    ∷ entry 0x2404 0x7a87 0xec00 38 125 193 4 0 22 18 br_276 ports_8
    ∷ entry 0x2404 0x7a87 0xf000 38 125 193 148 0 22 18 br_276 ports_8
    ∷ entry 0x2404 0x7a87 0xf400 38 118 110 76 0 22 18 br_276 ports_8
    ∷ entry 0x2404 0x7a87 0xf800 38 118 110 96 0 22 18 br_276 ports_8
    ∷ entry 0x2404 0x7a87 0xfc00 38 125 193 152 0 22 18 br_276 ports_8
    ∷ []
