-- ===== src/Expr/Names.antt =====
-- The names of variables in pkg/expr: `varExprFactory` reads them as `kind.name`.
pub mod Roundtrip
use busybee.Prelude.{ℕ, Bool, Option, none, some, List, [], ◌∷◌, Bytes, bytes_equal, if◌then◌else◌}
use busybee.Expr.Value.{VarType}
use busybee.Expr.Vars.{
  Func, year_func, month_func, day_func, week_func, time_func, date_func, datetime_func,
  timestamp_func, total_crowd_func, step_crowd_func, Dynamic, current_year, current_month,
  current_day, from_event, from_kv, from_profile, VarExpr, event_var, profile_var, kv_var,
  dynamic_kv_var, func_var, split,
}

abbrev pub event_name : Bytes
event_name = 101 ∷ 118 ∷ 101 ∷ 110 ∷ 116 ∷ []

abbrev pub profile_name : Bytes
profile_name = 112 ∷ 114 ∷ 111 ∷ 102 ∷ 105 ∷ 108 ∷ 101 ∷ []

abbrev pub kv_name : Bytes
kv_name = 107 ∷ 118 ∷ []

abbrev pub dyna_name : Bytes
dyna_name = 100 ∷ 121 ∷ 110 ∷ 97 ∷ []

abbrev pub func_name : Bytes
func_name = 102 ∷ 117 ∷ 110 ∷ 99 ∷ []

abbrev pub year_name : Bytes
year_name = 121 ∷ 101 ∷ 97 ∷ 114 ∷ []

abbrev pub month_name : Bytes
month_name = 109 ∷ 111 ∷ 110 ∷ 116 ∷ 104 ∷ []

abbrev pub day_name : Bytes
day_name = 100 ∷ 97 ∷ 121 ∷ []

abbrev pub week_name : Bytes
week_name = 119 ∷ 101 ∷ 101 ∷ 107 ∷ []

abbrev pub time_name : Bytes
time_name = 116 ∷ 105 ∷ 109 ∷ 101 ∷ []

abbrev pub date_name : Bytes
date_name = 100 ∷ 97 ∷ 116 ∷ 101 ∷ []

abbrev pub datetime_name : Bytes
datetime_name = 100 ∷ 97 ∷ 116 ∷ 101 ∷ 116 ∷ 105 ∷ 109 ∷ 101 ∷ []

abbrev pub timestamp_name : Bytes
timestamp_name = 116 ∷ 105 ∷ 109 ∷ 101 ∷ 115 ∷ 116 ∷ 97 ∷ 109 ∷ 112 ∷ []

abbrev pub wf_crowd_name : Bytes
wf_crowd_name = 119 ∷ 102 ∷ 95 ∷ 99 ∷ 114 ∷ 111 ∷ 119 ∷ 100 ∷ []

abbrev pub wf_step_crowd_name : Bytes
wf_step_crowd_name = 119 ∷ 102 ∷ 95 ∷ 115 ∷ 116 ∷ 101 ∷ 112 ∷ 95 ∷ 99 ∷ 114 ∷ 111 ∷ 119 ∷ 100 ∷ []

-- a `switch` on a text
unfoldable pub switch : {A : Type 0} → Bytes → List (Bytes × A) → Option A
switch name [] = none
switch name ((n, a) ∷ cases) =
    let rest = switch name cases in if bytes_equal name n then some a else rest

-- the cases of `newFuncVar`
abbrev pub funcs : List (Bytes × Func)
funcs =
    (year_name, year_func)
    ∷ (month_name, month_func)
    ∷ (day_name, day_func)
    ∷ (week_name, week_func)
    ∷ (time_name, time_func)
    ∷ (date_name, date_func)
    ∷ (datetime_name, datetime_func)
    ∷ (timestamp_name, timestamp_func)
    ∷ (wf_crowd_name, total_crowd_func)
    ∷ (wf_step_crowd_name, step_crowd_func)
    ∷ []

-- `none` is the error
unfoldable pub new_func_var : Bytes → VarType → Option VarExpr
unfolding switch
new_func_var name type = elim (switch name funcs) [ none ↦ none | some f ↦ some (func_var f type) ]

-- the attribute of a dynamic that needs one
abbrev pub with_attr : (Bytes → Dynamic) → List Bytes → Option Dynamic
with_attr f (attr ∷ []) = some (f attr)
with_attr f _ = none

-- the cases of `newDynamicKVVar`, with the parts after the first
abbrev pub dynamics : List Bytes → List (Bytes × Option Dynamic)
dynamics rest =
    (year_name, some current_year)
    ∷ (month_name, some current_month)
    ∷ (day_name, some current_day)
    ∷ (event_name, with_attr from_event rest)
    ∷ (kv_name, with_attr from_kv rest)
    ∷ (profile_name, with_attr from_profile rest)
    ∷ []

unfoldable pub new_dynamic_kv_var : Bytes → Bytes → List Bytes → VarType → Option VarExpr
unfolding switch
new_dynamic_kv_var pattern' first rest type = elim (switch first (dynamics rest)) [
  | some (some d) ↦ some (dynamic_kv_var pattern' d type)
  | _ ↦ none
]

-- a kind that takes one name
abbrev pub with_name : (Bytes → Option VarExpr) → List Bytes → Option VarExpr
with_name f (name ∷ []) = f name
with_name f _ = none

abbrev pub with_dynamic : VarType → List Bytes → Option VarExpr
with_dynamic type (pattern' ∷ (first ∷ rest)) = new_dynamic_kv_var pattern' first rest type
with_dynamic type _ = none

-- the cases of `varExprFactory`, with the parts after the kind
abbrev pub kinds : List Bytes → VarType → List (Bytes × Option VarExpr)
kinds rest type =
    (event_name, with_name (λ a. some (event_var a type)) rest)
    ∷ (profile_name, with_name (λ a. some (profile_var a type)) rest)
    ∷ (kv_name, with_name (λ a. some (kv_var a type)) rest)
    ∷ (dyna_name, with_dynamic type rest)
    ∷ (func_name, with_name (λ a. new_func_var a type) rest)
    ∷ []

-- the `switch` on the first part
unfoldable pub by_kind : VarType → List Bytes → Option VarExpr
unfolding switch new_func_var new_dynamic_kv_var
by_kind type [] = none
by_kind type (kind ∷ rest) = elim (switch kind (kinds rest type)) [
  | some (some v) ↦ some v
  | _ ↦ none
]

unfoldable pub var_expr_factory : Bytes → VarType → Option VarExpr
unfolding split by_kind
var_expr_factory data' type = by_kind type (split data')
