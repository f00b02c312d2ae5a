-- ===== src/Storage/Kv/Conditional.antt =====
-- `setIf` and `deleteIf` of pkg/storage/cmd_handler_kv.go.
use busybee.Prelude.{
  ℕ, ◌+◌, ◌-◌, ◌%◌, Bool, true, false, not, List, Bytes, is_empty, length, ltb, if◌then◌else◌,
}
use busybee.Prelude.Int.{ℤ, pos, negsuc, ◌-ℤ◌}
use busybee.Storage.Engine.{DataStorage, M, pure, load, save_with_ttl, remove, ◌>>=◌, ◌>>◌}
use busybee.Storage.Condition.{ConditionGroup, match_condition_groups}
use busybee.Storage.Reply.{Reply, boolean, reply, unchanged}
pub mod Laws

-- the conversion `int32(x)` of an `int64`
abbrev pub to_int32 : ℤ → ℤ
to_int32 (pos n) =
    let m = n % 4294967296 in if ltb m 2147483648 then pos m else negsuc (4294967295 - m)
to_int32 (negsuc n) =
    let m = n % 4294967296 in if ltb m 2147483648 then negsuc m else pos (4294967295 - m)

pub record SetIfRequest : Type 0 where
  pub value : Bytes
  pub ttl : ℤ
  pub conditions : List ConditionGroup

module _ {S : Type 0} (D : DataStorage S) where
  unfoldable pub set_if : Bytes → SetIfRequest → M S Reply
  set_if key req = do
    value ← load D key
    if match_condition_groups value req.conditions
        then (do
          save_with_ttl D key req.value (to_int32 req.ttl)
          let written : ℕ = if is_empty value then 0 else length key + length req.value
          pure (reply written (pos written) (boolean true)))
        else pure (unchanged (boolean false))

  unfoldable pub delete_if : Bytes → List ConditionGroup → M S Reply
  delete_if key conditions = do
    value ← load D key
    if match_condition_groups value conditions
        then (do
          remove D key
          let written : ℕ = if is_empty value then 0 else length key + length value
          pure (reply written (pos 0 -ℤ pos written) (boolean true)))
        else pure (unchanged (boolean false))
