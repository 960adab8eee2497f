-- ===== src/Map/V6plus/Table.antt =====
-- `RULES`, `V6PLUS_MAP_RULES` and `RULE_COUNT` of src/map/v6plus_rules.rs: the rows in their order, in
-- the six runs in which the prefixes ascend.
use mapecd.Common.{ℕ, List, ◌++◌}
use mapecd.Map.V6plus.Row.{Row}
use mapecd.Map.V6plus.Prefix38A.{
  rules_from_0, rules_from_13, rules_from_26, rules_from_39, rules_from_52, rules_from_65,
  rules_from_78, rules_from_91, rules_from_104, rules_from_117,
}
use mapecd.Map.V6plus.Prefix38B.{
  rules_from_128, rules_from_141, rules_from_154, rules_from_167, rules_from_180, rules_from_193,
  rules_from_206, rules_from_219, rules_from_232, rules_from_245,
}
use mapecd.Map.V6plus.Prefix31.{rules_from_256}
use mapecd.Map.V6plus.Prefix20A.{
  rules_from_262, rules_from_275, rules_from_288, rules_from_301, rules_from_314, rules_from_327,
  rules_from_340, rules_from_353, rules_from_366, rules_from_379, rules_from_392,
}
use mapecd.Map.V6plus.Prefix20B.{
  rules_from_405, rules_from_418, rules_from_431, rules_from_444, rules_from_457, rules_from_470,
  rules_from_483, rules_from_496, rules_from_509, rules_from_522, rules_from_535,
}
use mapecd.Map.V6plus.Prefix20C.{
  rules_from_548, rules_from_561, rules_from_574, rules_from_587, rules_from_600, rules_from_613,
  rules_from_626, rules_from_639, rules_from_652, rules_from_665, rules_from_678,
}

abbrev pub ruleprefix38_first : List Row
ruleprefix38_first =
    rules_from_0
    ++ (rules_from_13
        ++ (rules_from_26
            ++ (rules_from_39
                ++ (rules_from_52
                    ++ (rules_from_65
                        ++ (rules_from_78
                            ++ (rules_from_91 ++ (rules_from_104 ++ (rules_from_117)))))))))

abbrev pub ruleprefix38_second : List Row
ruleprefix38_second =
    rules_from_128
    ++ (rules_from_141
        ++ (rules_from_154
            ++ (rules_from_167
                ++ (rules_from_180
                    ++ (rules_from_193
                        ++ (rules_from_206
                            ++ (rules_from_219 ++ (rules_from_232 ++ (rules_from_245)))))))))

abbrev pub ruleprefix38_20 : List Row
ruleprefix38_20 =
    rules_from_262
    ++ (rules_from_275
        ++ (rules_from_288
            ++ (rules_from_301
                ++ (rules_from_314
                    ++ (rules_from_327
                        ++ (rules_from_340
                            ++ (rules_from_353
                                ++ (rules_from_366
                                    ++ (rules_from_379
                                        ++ (rules_from_392
                                            ++ (rules_from_405
                                                ++ (rules_from_418
                                                    ++ (rules_from_431
                                                        ++ (rules_from_444
                                                            ++ (rules_from_457
                                                            ++ (rules_from_470
                                                            ++ (rules_from_483
                                                            ++ (rules_from_496
                                                            ++ (rules_from_509
                                                            ++ (rules_from_522
                                                            ++ (rules_from_535
                                                            ++ (rules_from_548
                                                            ++ (rules_from_561
                                                            ++ (rules_from_574
                                                            ++ (rules_from_587
                                                            ++ (rules_from_600
                                                            ++ (rules_from_613
                                                            ++ (rules_from_626
                                                            ++ (rules_from_639
                                                            ++ (rules_from_652
                                                            ++ (rules_from_665
                                                            ++ (rules_from_678))))))))))))))))))))))))))))))))

unfoldable pub v6plus_map_rules : List Row
v6plus_map_rules =
    ruleprefix38_first ++ (ruleprefix38_second ++ (rules_from_256 ++ ruleprefix38_20))

abbrev pub rule_count : ℕ
rule_count = 690
