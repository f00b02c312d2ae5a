-- ===== src/Expr/Tests.antt =====
-- Expressions over simple texts of numbers, on sets of numbers.
use busybee.Prelude.{
  ℕ, zero, suc, ◌≡◌, refl, Bool, true, false, ◌||◌, Option, none, some, List, [], ◌∷◌, ◌++◌, Bytes,
  bytes_equal, get_elem?, arith, if◌then◌else◌,
}
use busybee.Prelude.Int.{ℤ, pos, negsuc, IsInt64, ◌+ℤ◌, ◌-ℤ◌}
use busybee.Util.Roaring.{is_in}
use busybee.Util.Roaring.Lists.{lists}
use busybee.Expr.Run.{Heap, ok, ret, empty_bm}
use busybee.Expr.Value.{
  Text, num, bitmap, boolean, str_type, num_type, bm_type, by_value_type, to_int64,
}
use busybee.Expr.Ops.{equal, not_equal, lt, le, gt, ge, add, minus}
use busybee.Expr.Ops.Overflow.{IsWrapOf, sums_wrap}
use busybee.Expr.Ops.Logic.{logic_or, op_in, op_not_in}
use busybee.Expr.Ops.Laws.{negated, comparisons_negate, or_pollutes}
use busybee.Expr.Vars.{Format, Now, Ctx, kv_var, profile_var, exec_var, key_of_var}
use busybee.Expr.Vars.Laws.{preload_suffices}
use busybee.Expr.Names.{var_expr_factory}
use busybee.Expr.Names.Roundtrip.{name_of_var, var_expr_factory_roundtrip}
use busybee.Expr.Runtime.{select, new_runtime, keys}
use busybee.Expr.Runtime.Laws.{keys_frozen}

abbrev matches : Option Bytes → Bytes → Bool
matches none s = true
matches (some p) s = bytes_equal p s

abbrev format : ℤ → Bytes
format (pos n) = 0 ∷ n ∷ []
format (negsuc n) = 1 ∷ n ∷ []

abbrev parse : Bytes → Option ℤ
parse (zero ∷ n ∷ []) = some (pos n)
parse (suc m ∷ n ∷ []) = some (negsuc n)
parse _ = none

parse-format : (x : ℤ) → IsInt64 x → parse (format x) ≡ some x
parse-format (pos n) h = refl
parse-format (negsuc n) h = refl

-- a regular expression matches one text, or all
abbrev text : Text (Option Bytes)
text = record {
  compile = λ p. some (some p);
  match_string = matches;
  any = none;
  parse_int64 = parse;
  format_int64 = format;
  match_string-any = λ s. refl;
  parse-format = parse-format;
}

abbrev heap : Heap (List ℕ)
heap = [] ∷ (5 ∷ 6 ∷ []) ∷ []

comparisons_negate_example :
    (not_equal text lists (num (pos 3)) (ret (num (pos 4))) heap ≡ ok (boolean true) heap)
    × (ge text lists (num (pos 3)) (ret (num (pos 4))) heap ≡ ok (boolean false) heap)
    × (gt text lists (num (pos 3)) (ret (num (pos 4))) heap ≡ ok (boolean false) heap)
    × (op_not_in text lists (num (pos 3)) (ret (num (pos 4))) heap
        ≡ negated (op_in text lists (num (pos 3)) (ret (num (pos 4))) heap))
unfolding equal lt le to_int64
comparisons_negate_example = comparisons_negate text lists (num (pos 3)) (ret (num (pos 4))) heap

-- the sum of the largest number and 1 is the smallest number
sums_wrap_example :
    let big = pos 9223372036854775807 in
    (s d : ℤ) × (add text lists (num big) (ret (num (pos 1))) heap ≡ ok (num s) heap)
    × IsWrapOf s (big +ℤ pos 1)
    × (minus text lists (num s) (ret (num (pos 1))) heap ≡ ok (num big) heap)
    × (minus text lists (num big) (ret (num (pos 1))) heap ≡ ok (num d) heap)
    × IsWrapOf d (big -ℤ pos 1)
    × (add text lists (num d) (ret (num (pos 1))) heap ≡ ok (num big) heap)
sums_wrap_example =
    sums_wrap text lists (pos 9223372036854775807) (pos 1) heap (ground arith) (ground arith)

or_pollutes_example :
    (h' : Heap (List ℕ)) × (c : List ℕ) × (logic_or text lists
        (bitmap empty_bm)
        (ret (bitmap 1))
        heap
      ≡ ok (bitmap empty_bm) h')
    × (by_value_type text lists [] bm_type h' ≡ ok (bitmap empty_bm) h')
    × (get_elem? h' empty_bm ≡ some c)
    × ((x : ℕ) → is_in x c ≡ (is_in x [] || is_in x (5 ∷ 6 ∷ [])))
unfolding lists
or_pollutes_example = or_pollutes text lists 1 [] (5 ∷ 6 ∷ []) heap refl refl

abbrev two : Bytes
two = 2 ∷ []

abbrev formats : Format
formats = record {
  sprintf_number = λ p n. p ++ (n ∷ []);
  sprintf_text = λ p t. p ++ t;
  format_uint64 = λ n. n ∷ [];
  extract_json_field = λ value attr. value;
}

abbrev now : Now
now = record {
  year = 2020;
  month = 5;
  day = 1;
  weekday = 5;
  unix = pos 1588291200;
  time = [];
  date = [];
  datetime = [];
}

-- a user's profile is stored under a key of its number
abbrev of_user : ℕ → Ctx
of_user user = record {
  event = record { user_id = user; data' = [] };
  profile = λ attr. user ∷ [];
  kv = λ key. some key;
  total_crowd = 1;
  step_crowd = 1;
}

preload_suffices_example :
    exec_var formats text lists now
      (record (of_user 5) { kv = λ key. if bytes_equal key (7 ∷ []) then some (7 ∷ []) else none })
      (kv_var (7 ∷ []) str_type)
      heap
    ≡ exec_var formats text lists now (of_user 5) (kv_var (7 ∷ []) str_type) heap
unfolding key_of_var bytes_equal
preload_suffices_example =
    preload_suffices formats text lists now (of_user 5)
      (λ key. if bytes_equal key (7 ∷ []) then some (7 ∷ []) else none) (kv_var (7 ∷ []) str_type)
      heap refl refl

var_expr_factory_roundtrip_example :
    var_expr_factory (name_of_var (kv_var (97 ∷ 98 ∷ []) num_type)) num_type
    ≡ some (kv_var (97 ∷ 98 ∷ []) num_type)
var_expr_factory_roundtrip_example =
    var_expr_factory_roundtrip (kv_var (97 ∷ 98 ∷ []) num_type) (refl, (refl, tt))

-- the second user's key is the first one's
keys_frozen_example :
    let first = keys formats now (of_user 5) true (new_runtime (profile_var [] str_type ∷ [])) in
    (first.0 ≡ some ((5 ∷ []) ∷ []))
    × ((keys formats now (of_user 6) true first.1).0 ≡ some ((5 ∷ []) ∷ []))
unfolding select key_of_var
keys_frozen_example =
    keys_frozen formats (profile_var [] str_type ∷ []) now now (of_user 5) (of_user 6) true true
