-- ===== src/Storage/Condition/Tests.antt =====
-- The conditions of a request on concrete values.
use busybee.Prelude.{◌≡◌, ◌↔◌, true, List, [], ◌∷◌, Bytes, All, Any, arith}
use busybee.Storage.Condition.{Cmp, ConditionGroup, match_condition_groups}
use busybee.Storage.Condition.Meaning.{Holds, match_condition_groups_iff}

-- the value is missing, or it is at least 5 and below 9
abbrev guards : List ConditionGroup
guards =
    (record { cmp = Cmp.not_exists; value = [] } ∷ [])
    ∷ (record { cmp = Cmp.ge; value = 5 ∷ [] } ∷ record { cmp = Cmp.lt; value = 9 ∷ [] } ∷ [])
    ∷ []

match_condition_groups_iff_example :
    (match_condition_groups (7 ∷ []) guards ≡ true) ↔ Any (All (Holds (7 ∷ []))) guards
match_condition_groups_iff_example =
    match_condition_groups_iff (7 ∷ []) guards
      (((λ e. ground arith), tt), (((λ e. ground arith), ((λ e. ground arith), tt)), tt))

abbrev seven : Bytes
seven = 7 ∷ []
