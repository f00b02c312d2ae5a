-- ===== src/Expr/Ops.antt =====
-- pkg/expr/cmp.go: the operators. An operator takes the value of its left operand and runs the
-- right one itself.
pub mod Logic
pub mod Laws
pub mod Overflow
use busybee.Prelude.{
  ◌-◌, ℕ, Bool, true, false, not, List, [], ◌∷◌, ◌++◌, ◌||◌, Bytes, bytes_equal, bytes_compare,
  is_lt, is_gt, ◌%◌, if◌then◌else◌,
}
use busybee.Prelude.Int.{ℤ, ◌+ℤ◌, ◌-ℤ◌, ◌*ℤ◌, wrap_int64, ltb_ℤ, eq_ℤ, quot, rem, pos, negsuc}
use busybee.Storage.Wire.{u32_mod}
use busybee.Util.Roaring.{Roaring}
use busybee.Util.Bitmap.{bm_andnot, bm_xor}
use busybee.Expr.Run.{Run, ret, fail, or_fail, or_die, read, write, alloc, ◌>>=◌, ◌>>◌}
use busybee.Expr.Value.{
  Text, Value, str, num, regexp, bitmap, boolean, strings, bytes, other, to_string, to_int64,
  to_regexp, to_bitmap,
}

-- `uint32(v)` of an `int64`
abbrev pub to_uint32 : ℤ → ℕ
to_uint32 (pos n) = n % u32_mod
to_uint32 (negsuc n) = u32_mod - 1 - n % u32_mod

module _ {Re B : Type 0} (T : Text Re) (R : Roaring B) where
  abbrev pub Operator : Type 0
  Operator = Value Re → Run B (Value Re) → Run B (Value Re)

  -- The shape of most operators: the right operand is run and converted to the left one's type,
  -- `string` or `int64`; another type on the left is an error.
  abbrev pub on_both : (Bytes → Bytes → Value Re) → (ℤ → ℤ → Value Re) → Operator
  on_both on_str on_num left right = do
    value ← right
    elim left [
      | str v1 ↦ do v2 ← to_string T R value; ret (on_str v1 v2)
      | num v1 ↦ do v2 ← to_int64 T R value; ret (on_num v1 v2)
      | _ ↦ fail
    ]

  unfoldable pub equal : Operator
  unfolding to_string to_int64
  equal = on_both (λ a b. boolean (bytes_equal a b)) (λ a b. boolean (eq_ℤ a b))

  unfoldable pub not_equal : Operator
  unfolding to_string to_int64
  not_equal = on_both (λ a b. boolean (not (bytes_equal a b))) (λ a b. boolean (not (eq_ℤ a b)))

  unfoldable pub lt : Operator
  unfolding to_string to_int64
  lt = on_both (λ a b. boolean (is_lt (bytes_compare a b))) (λ a b. boolean (ltb_ℤ a b))

  unfoldable pub le : Operator
  unfolding to_string to_int64
  le = on_both (λ a b. boolean (not (is_gt (bytes_compare a b)))) (λ a b. boolean (not (ltb_ℤ b a)))

  unfoldable pub gt : Operator
  unfolding to_string to_int64
  gt = on_both (λ a b. boolean (is_gt (bytes_compare a b))) (λ a b. boolean (ltb_ℤ b a))

  unfoldable pub ge : Operator
  unfolding to_string to_int64
  ge = on_both (λ a b. boolean (not (is_lt (bytes_compare a b)))) (λ a b. boolean (not (ltb_ℤ a b)))

  unfoldable pub add : Operator
  unfolding to_string to_int64
  add = on_both (λ a b. str (a ++ b)) (λ a b. num (wrap_int64 (a +ℤ b)))

  -- `-`; bitmaps lose ids in place
  unfoldable pub minus : Operator
  unfolding to_int64
  minus left right = do
    value ← right
    elim left [
      | num v1 ↦ do v2 ← to_int64 T R value; ret (num (wrap_int64 (v1 -ℤ v2)))
      | bitmap v1 ↦ elim value [
        | num n ↦ do b ← read v1; write v1 (R.remove b (to_uint32 n)); ret (bitmap v1)
        | bitmap v2 ↦ do
          tmp ← read v1
          c ← read v2
          write v1 (R.xor_with tmp (R.and tmp c))
          ret (bitmap v1)
        | _ ↦ fail
      ]
      | _ ↦ fail
    ]

  unfoldable pub multiplication : Operator
  unfolding to_int64
  multiplication left right = do
    value ← right
    elim left [ num v1 ↦ do v2 ← to_int64 T R value; ret (num (wrap_int64 (v1 *ℤ v2))) | _ ↦ fail ]

  -- the division by zero panics
  unfoldable pub division : Operator
  unfolding to_int64
  division left right = do
    value ← right
    elim left [
      | num v1 ↦ do v2 ← to_int64 T R value; q ← or_die (quot v1 v2); ret (num (wrap_int64 q))
      | _ ↦ fail
    ]

  -- `%`: the left type is tested before the right operand is run
  unfoldable pub op_mod : Operator
  unfolding to_int64
  op_mod left right = elim left [
    | num v1 ↦ do
      value ← right
      v2 ← to_int64 T R value
      r ← or_die (rem v1 v2)
      ret (num (wrap_int64 r))
    | _ ↦ fail
  ]

  unfoldable pub match : Operator
  unfolding to_regexp
  match left right = do
    value ← right
    elim left [
      | str v1 ↦ do v2 ← to_regexp T R value; ret (boolean (T.match_string v2 v1))
      | _ ↦ fail
    ]

  unfoldable pub not_match : Operator
  unfolding to_string
  not_match left right = do
    value ← right
    elim left [
      | str v1 ↦ do
        v2 ← to_string T R value
        pattern' ← or_fail (T.compile v2)
        ret (boolean (not (T.match_string pattern' v1)))
      | _ ↦ fail
    ]
