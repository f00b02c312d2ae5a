-- ===== src/Expr/Ops/Logic.antt =====
-- The rest of pkg/expr/cmp.go: the logical operators, which work on bitmaps too, and membership.
use busybee.Prelude.{
  Bool, true, false, not, Option, none, some, List, [], ◌∷◌, Bytes, bytes_equal, if◌then◌else◌,
}
use busybee.Prelude.Int.{ℤ, eq_ℤ}
use busybee.Util.Roaring.{Roaring}
use busybee.Util.Bitmap.{bm_andnot, bm_xor}
use busybee.Expr.Run.{ret, fail, or_fail, read, write, alloc, ◌>>=◌, ◌>>◌}
use busybee.Expr.Value.{Text, str, num, bitmap, boolean, strings, to_bitmap}
use busybee.Expr.Ops.{Operator}

module _ {Re B : Type 0} (T : Text Re) (R : Roaring B) where
  -- `!&`, on a new bitmap
  unfoldable pub andnot : Operator T R
  unfolding to_bitmap
  andnot left right = do
    value ← right
    elim left [
      | bitmap v1 ↦ do
        v2 ← to_bitmap T R value
        a ← read v1
        b ← read v2
        c ← alloc (bm_andnot R a (b ∷ []))
        ret (bitmap c)
      | _ ↦ fail
    ]

  -- `^|`, on a new bitmap
  unfoldable pub xor : Operator T R
  unfolding to_bitmap
  xor left right = do
    value ← right
    elim left [
      | bitmap v1 ↦ do
        v2 ← to_bitmap T R value
        a ← read v1
        b ← read v2
        c ← alloc (bm_xor R a (b ∷ []))
        ret (bitmap c)
      | _ ↦ fail
    ]

  -- `&&`: a false left side decides alone; the left bitmap changes in place
  unfoldable pub logic_and : Operator T R
  logic_and left right = elim left [
    | boolean v1 ↦
        if v1
        then (do value ← right; elim value [ boolean v2 ↦ ret (boolean v2) | _ ↦ fail ])
        else ret (boolean false)
    | bitmap v1 ↦ do
      value ← right
      elim value [
        | bitmap v2 ↦ do a ← read v1; b ← read v2; write v1 (R.and a b); ret (bitmap v1)
        | _ ↦ fail
      ]
    | _ ↦ fail
  ]

  -- `||`: a true left side decides alone; the left bitmap changes in place
  unfoldable pub logic_or : Operator T R
  logic_or left right = elim left [
    | boolean v1 ↦
        if v1
        then ret (boolean true)
        else (do value ← right; elim value [ boolean v2 ↦ ret (boolean v2) | _ ↦ fail ])
    | bitmap v1 ↦ do
      value ← right
      elim value [
        | bitmap v2 ↦ do a ← read v1; b ← read v2; write v1 (R.or a b); ret (bitmap v1)
        | _ ↦ fail
      ]
    | _ ↦ fail
  ]

  -- the loops of `in` and `notIn`
  unfoldable pub has_string : Bytes → List Bytes → Bool
  has_string v [] = false
  has_string v (x ∷ xs) = if bytes_equal v x then true else has_string v xs

  -- `none` is an element that is no number, met before an equal one
  unfoldable pub has_number : ℤ → List Bytes → Option Bool
  has_number v [] = some false
  has_number v (x ∷ xs) =
      let rest = has_number v xs in
      elim (T.parse_int64 x) [ none ↦ none | some n ↦ if eq_ℤ v n then some true else rest ]

  -- what both make of a list: `answer` is applied to the membership
  abbrev pub membership : (Bool → Bool) → Operator T R
  membership answer left right = do
    value ← right
    elim value [
      | strings expect ↦ elim left [
        | str v1 ↦ ret (boolean (answer (has_string v1 expect)))
        | num v1 ↦ do found ← or_fail (has_number v1 expect); ret (boolean (answer found))
        | _ ↦ fail
      ]
      | _ ↦ fail
    ]

  unfoldable pub op_in : Operator T R
  unfolding has_string has_number
  op_in = membership (λ b. b)

  unfoldable pub op_not_in : Operator T R
  unfolding has_string has_number
  op_not_in = membership not
