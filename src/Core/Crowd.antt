-- ===== src/Core/Crowd.antt =====
-- Who moves, from pkg/core/execution.go: one user or a crowd.
use busybee.Prelude.{ℕ, Bool, not, Option, none, some, List, [], ◌∷◌, Bytes, ◌==◌, if◌then◌else◌}
use busybee.Prelude.Int.{ℤ}
use busybee.Util.Roaring.{Roaring, cardinality}

-- `users` is `none` for a nil bitmap
pub record Who (B : Type 0) : Type 0 where
  pub user : ℕ
  pub users : Option B

pub record ChangedCtx (B : Type 0) : Type 0 where
  pub from_step : Bytes
  pub to_step : Bytes
  pub who : Who B
  pub ttl : ℤ

module _ {B : Type 0} (R : Roaring B) where
  abbrev pub appended : Who B → B → B
  appended w bm = elim w.users [ none ↦ R.add bm w.user | some us ↦ R.or bm us ]

  abbrev pub removed : Who B → B → B
  removed w bm = elim w.users [ none ↦ R.remove bm w.user | some us ↦ R.and_not bm us ]

  -- the bitmap afterwards, and whether its size is another
  unfoldable pub append_to : Who B → B → B × Bool
  append_to w bm = (appended w bm, not (cardinality R bm == cardinality R (appended w bm)))

  unfoldable pub remove_from : Who B → B → B × Bool
  remove_from w bm = (removed w bm, not (cardinality R bm == cardinality R (removed w bm)))

  -- `Minimum` panics on an empty bitmap, which a size of 1 rules out
  abbrev minimum : List ℕ → ℕ
  minimum [] = 0
  minimum (x ∷ xs) = x

  -- `user` and `crowd` of the users of a change: a single user is told by its number
  unfoldable pub single_user : B → ℕ
  single_user users = if cardinality R users == 1 then minimum (R.to_array users) else 0

  unfoldable pub crowd_data : Option B → Option Bytes
  crowd_data none = none
  crowd_data (some users) = if cardinality R users == 1 then none else some (R.marshal users)
