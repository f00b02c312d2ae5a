-- ===== src/Storage/Condition.antt =====
-- pkg/storage/condition.go: the guards of conditional writes.
pub mod Meaning
mod Tests
use Prim.Native.Nat.{Ordering}
use busybee.Prelude.{
  Bool, true, false, not, List, [], ◌∷◌, Bytes, is_empty, bytes_compare, is_eq, is_gt, is_lt,
  if◌then◌else◌,
}

-- `rpcpb.CmpOperation`; `other` is any value outside the enumeration
pub data Cmp : Type 0 where
  exists not_exists equal not_equal gt ge lt le other : Cmp

pub record Condition : Type 0 where
  pub cmp : Cmp
  pub value : Bytes

abbrev pub ConditionGroup : Type 0
ConditionGroup = List Condition

-- the `switch` of `matchCondition`; `not_equal` is tested as the source tests it
pub compare_by : Cmp → Bytes → Bytes → Bool
compare_by Cmp.not_exists value expect = is_empty value
compare_by Cmp.exists value expect = not (is_empty value)
compare_by Cmp.equal value expect = is_eq (bytes_compare value expect)
compare_by Cmp.not_equal value expect = is_eq (bytes_compare value expect)
compare_by Cmp.ge value expect = not (is_lt (bytes_compare value expect))
compare_by Cmp.gt value expect = is_gt (bytes_compare value expect)
compare_by Cmp.le value expect = not (is_gt (bytes_compare value expect))
compare_by Cmp.lt value expect = is_lt (bytes_compare value expect)
compare_by Cmp.other value expect = false

unfoldable pub match_condition : Bytes → Condition → Bool
unfolding compare_by
match_condition value cond = compare_by cond.cmp value cond.value

unfoldable pub match_condition_group : Bytes → ConditionGroup → Bool
match_condition_group value [] = true
match_condition_group value (cond ∷ conds) =
    let rest = match_condition_group value conds in
    if match_condition value cond then rest else false

unfoldable pub match_condition_groups : Bytes → List ConditionGroup → Bool
match_condition_groups value [] = false
match_condition_groups value (g ∷ groups) =
    let rest = match_condition_groups value groups in
    if match_condition_group value g then true else rest
