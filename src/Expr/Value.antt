-- ===== src/Expr/Value.antt =====
-- pkg/expr/value.go: the values of expressions and their conversions. Regular expressions and the
-- text of numbers are third-party code: an interface.
use busybee.Prelude.{ℕ, ◌≡◌, Bool, true, Option, some, List, Bytes, is_empty, if◌then◌else◌}
use busybee.Prelude.Int.{ℤ, pos, IsInt64}
use busybee.Util.Roaring.{Roaring}
use busybee.Expr.Run.{Run, ret, fail, or_fail, or_die, alloc, empty_bm, ◌>>=◌}

-- `regexp` of Go, and `format` of fagongzi/util
pub record Text (Re : Type 0) : Type 0 where
  pub compile : Bytes → Option Re
  pub match_string : Re → Bytes → Bool
  -- `regexp.MustCompile(".*")`
  pub any : Re
  pub parse_int64 : Bytes → Option ℤ
  pub format_int64 : ℤ → Bytes
  pub match_string-any : (s : Bytes) → match_string any s ≡ true
  pub parse-format : (x : ℤ) → IsInt64 x → parse_int64 (format_int64 x) ≡ some x

-- what an `interface{}` of the package holds; `other` is any other type
pub data Value (Re : Type 0) : Type 0 where
  str : Bytes → Value Re
  num : ℤ → Value Re
  regexp : Re → Value Re
  -- the address of a bitmap
  bitmap : ℕ → Value Re
  boolean : Bool → Value Re
  -- `[]string`
  strings : List Bytes → Value Re
  -- `[]byte`
  bytes : Bytes → Value Re
  other : Value Re

-- `engine.VarType`
pub data VarType : Type 0 where
  str_type num_type regexp_type bm_type other_type : VarType

module _ {Re B : Type 0} (T : Text Re) (R : Roaring B) where
  -- `util.AcquireBitmap` and `util.MustParseBMTo`
  abbrev pub parse_bm : Bytes → Run B ℕ
  parse_bm value = do b ← or_die (R.unmarshal value); alloc b

  unfoldable pub to_regexp : Value Re → Run B Re
  to_regexp (str v) = or_fail (T.compile v)
  to_regexp (regexp v) = ret v
  to_regexp _ = fail

  unfoldable pub to_string : Value Re → Run B Bytes
  to_string (str v) = ret v
  to_string (num v) = ret (T.format_int64 v)
  to_string _ = fail

  unfoldable pub to_int64 : Value Re → Run B ℤ
  to_int64 (num v) = ret v
  to_int64 (bytes v) = if is_empty v then ret (pos 0) else or_fail (T.parse_int64 v)
  to_int64 (str v) = or_fail (T.parse_int64 v)
  to_int64 _ = fail

  unfoldable pub to_bitmap : Value Re → Run B ℕ
  to_bitmap (bitmap a) = ret a
  to_bitmap (str v) = if is_empty v then ret empty_bm else parse_bm v
  to_bitmap (bytes v) = if is_empty v then ret empty_bm else parse_bm v
  to_bitmap _ = fail

  unfoldable pub by_value_type : Bytes → VarType → Run B (Value Re)
  by_value_type value str_type = ret (str value)
  by_value_type value num_type =
      if is_empty value
      then ret (num (pos 0))
      else (do v ← or_fail (T.parse_int64 value); ret (num v))
  by_value_type value regexp_type =
      if is_empty value
      then ret (regexp T.any)
      else (do v ← or_fail (T.compile value); ret (regexp v))
  by_value_type value bm_type =
      if is_empty value then ret (bitmap empty_bm) else (do a ← parse_bm value; ret (bitmap a))
  by_value_type value other_type = fail

  unfoldable pub convert_by_type : Value Re → VarType → Run B (Value Re)
  unfolding to_string to_int64 to_regexp to_bitmap
  convert_by_type value str_type = do v ← to_string value; ret (str v)
  convert_by_type value num_type = do v ← to_int64 value; ret (num v)
  convert_by_type value regexp_type = do v ← to_regexp value; ret (regexp v)
  convert_by_type value bm_type = do v ← to_bitmap value; ret (bitmap v)
  convert_by_type value other_type = fail
