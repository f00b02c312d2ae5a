-- ===== src/Expr/Names/Roundtrip.antt =====
-- A variable's name is read back as the variable: `varExprFactory` of pkg/expr/expr.go.
use busybee.Prelude.{
  ◌∙◌, ap, ℕ, ◌≡◌, refl, false, some, [], ◌∷◌, ◌++◌, Bytes, bytes_equal, ◌==◌, All,
}
use busybee.Expr.Value.{VarType}
use busybee.Expr.Vars.{
  Func, year_func, month_func, day_func, week_func, time_func, date_func, datetime_func,
  timestamp_func, total_crowd_func, step_crowd_func, Dynamic, current_year, current_month,
  current_day, from_event, from_kv, from_profile, VarExpr, event_var, profile_var, kv_var,
  dynamic_kv_var, func_var, split,
}
use busybee.Expr.Names.{
  event_name, profile_name, kv_name, dyna_name, func_name, year_name, month_name, day_name,
  week_name, time_name, date_name, datetime_name, timestamp_name, wf_crowd_name, wf_step_crowd_name,
  switch, by_kind, new_func_var, new_dynamic_kv_var, var_expr_factory,
}

abbrev dot : ℕ
dot = 46

abbrev pub name_of_func : Func → Bytes
name_of_func year_func = year_name
name_of_func month_func = month_name
name_of_func day_func = day_name
name_of_func week_func = week_name
name_of_func time_func = time_name
name_of_func date_func = date_name
name_of_func datetime_func = datetime_name
name_of_func timestamp_func = timestamp_name
name_of_func total_crowd_func = wf_crowd_name
name_of_func step_crowd_func = wf_step_crowd_name

abbrev pub name_of_dynamic : Dynamic → Bytes
name_of_dynamic current_year = year_name
name_of_dynamic current_month = month_name
name_of_dynamic current_day = day_name
name_of_dynamic (from_event attr) = event_name ++ (dot ∷ attr)
name_of_dynamic (from_kv attr) = kv_name ++ (dot ∷ attr)
name_of_dynamic (from_profile attr) = profile_name ++ (dot ∷ attr)

abbrev pub name_of_var : VarExpr → Bytes
name_of_var (event_var attr type) = event_name ++ (dot ∷ attr)
name_of_var (profile_var attr type) = profile_name ++ (dot ∷ attr)
name_of_var (kv_var attr type) = kv_name ++ (dot ∷ attr)
name_of_var (dynamic_kv_var pattern' d type) =
    dyna_name ++ (dot ∷ (pattern' ++ (dot ∷ name_of_dynamic d)))
name_of_var (func_var f type) = func_name ++ (dot ∷ name_of_func f)

abbrev pub type_of_var : VarExpr → VarType
type_of_var (event_var attr type) = type
type_of_var (profile_var attr type) = type
type_of_var (kv_var attr type) = type
type_of_var (dynamic_kv_var pattern' d type) = type
type_of_var (func_var f type) = type

-- no byte is a dot
abbrev pub IsPlain : Bytes → Type 0
IsPlain bs = All (λ b. (b == dot) ≡ false) bs

abbrev pub IsPlainDynamic : Dynamic → Type 0
IsPlainDynamic (from_event attr) = IsPlain attr
IsPlainDynamic (from_kv attr) = IsPlain attr
IsPlainDynamic (from_profile attr) = IsPlain attr
IsPlainDynamic _ = Unit

abbrev pub IsPlainVar : VarExpr → Type 0
IsPlainVar (event_var attr type) = IsPlain attr
IsPlainVar (profile_var attr type) = IsPlain attr
IsPlainVar (kv_var attr type) = IsPlain attr
IsPlainVar (dynamic_kv_var pattern' d type) = IsPlain pattern' × IsPlainDynamic d
IsPlainVar (func_var f type) = Unit

split-plain : (w : Bytes) → IsPlain w → split w ≡ w ∷ []
unfolding split
split-plain [] h = refl
split-plain (b ∷ w) h = rw (h.0, split-plain w h.1) refl

split-dot : (w rest : Bytes) → IsPlain w → split (w ++ (dot ∷ rest)) ≡ w ∷ split rest
unfolding split
split-dot [] rest h = refl
split-dot (b ∷ w) rest h = rw (h.0, split-dot w rest h.1) refl

-- the kind decides, and the rest is split
factory-dot :
    (kind rest : Bytes) (type : VarType)
    → IsPlain kind
    → var_expr_factory (kind ++ (dot ∷ rest)) type ≡ by_kind type (kind ∷ split rest)
unfolding var_expr_factory
factory-dot kind rest type h = ap (by_kind type) (split-dot kind rest h)

-- The name of a variable, whose parts have no dots, is read back as that variable.
pub var_expr_factory_roundtrip :
    (v : VarExpr) → IsPlainVar v → var_expr_factory (name_of_var v) (type_of_var v) ≡ some v
unfolding by_kind new_func_var new_dynamic_kv_var switch bytes_equal split
var_expr_factory_roundtrip (event_var attr type) h =
    factory-dot event_name attr type (refl, (refl, (refl, (refl, (refl, tt)))))
    ∙ rw (split-plain attr h) refl
var_expr_factory_roundtrip (profile_var attr type) h =
    factory-dot profile_name attr type (refl, (refl, (refl, (refl, (refl, (refl, (refl, tt)))))))
    ∙ rw (split-plain attr h) refl
var_expr_factory_roundtrip (kv_var attr type) h =
    factory-dot kv_name attr type (refl, (refl, tt)) ∙ rw (split-plain attr h) refl
var_expr_factory_roundtrip (dynamic_kv_var pattern' current_year type) h =
    factory-dot dyna_name (pattern' ++ (dot ∷ year_name)) type (refl, (refl, (refl, (refl, tt))))
    ∙ rw (split-dot pattern' year_name h.0) refl
var_expr_factory_roundtrip (dynamic_kv_var pattern' current_month type) h =
    factory-dot dyna_name (pattern' ++ (dot ∷ month_name)) type (refl, (refl, (refl, (refl, tt))))
    ∙ rw (split-dot pattern' month_name h.0) refl
var_expr_factory_roundtrip (dynamic_kv_var pattern' current_day type) h =
    factory-dot dyna_name (pattern' ++ (dot ∷ day_name)) type (refl, (refl, (refl, (refl, tt))))
    ∙ rw (split-dot pattern' day_name h.0) refl
var_expr_factory_roundtrip (dynamic_kv_var pattern' (from_event attr) type) h =
    factory-dot dyna_name (pattern' ++ (dot ∷ (event_name ++ (dot ∷ attr)))) type
      (refl, (refl, (refl, (refl, tt))))
    ∙ rw (split-dot pattern' (event_name ++ (dot ∷ attr)) h.0, split-plain attr h.1) refl
var_expr_factory_roundtrip (dynamic_kv_var pattern' (from_kv attr) type) h =
    factory-dot dyna_name (pattern' ++ (dot ∷ (kv_name ++ (dot ∷ attr)))) type
      (refl, (refl, (refl, (refl, tt))))
    ∙ rw (split-dot pattern' (kv_name ++ (dot ∷ attr)) h.0, split-plain attr h.1) refl
var_expr_factory_roundtrip (dynamic_kv_var pattern' (from_profile attr) type) h =
    factory-dot dyna_name (pattern' ++ (dot ∷ (profile_name ++ (dot ∷ attr)))) type
      (refl, (refl, (refl, (refl, tt))))
    ∙ rw (split-dot pattern' (profile_name ++ (dot ∷ attr)) h.0, split-plain attr h.1) refl
var_expr_factory_roundtrip (func_var year_func type) h =
    factory-dot func_name year_name type (refl, (refl, (refl, (refl, tt))))
var_expr_factory_roundtrip (func_var month_func type) h =
    factory-dot func_name month_name type (refl, (refl, (refl, (refl, tt))))
var_expr_factory_roundtrip (func_var day_func type) h =
    factory-dot func_name day_name type (refl, (refl, (refl, (refl, tt))))
var_expr_factory_roundtrip (func_var week_func type) h =
    factory-dot func_name week_name type (refl, (refl, (refl, (refl, tt))))
var_expr_factory_roundtrip (func_var time_func type) h =
    factory-dot func_name time_name type (refl, (refl, (refl, (refl, tt))))
var_expr_factory_roundtrip (func_var date_func type) h =
    factory-dot func_name date_name type (refl, (refl, (refl, (refl, tt))))
var_expr_factory_roundtrip (func_var datetime_func type) h =
    factory-dot func_name datetime_name type (refl, (refl, (refl, (refl, tt))))
var_expr_factory_roundtrip (func_var timestamp_func type) h =
    factory-dot func_name timestamp_name type (refl, (refl, (refl, (refl, tt))))
var_expr_factory_roundtrip (func_var total_crowd_func type) h =
    factory-dot func_name wf_crowd_name type (refl, (refl, (refl, (refl, tt))))
var_expr_factory_roundtrip (func_var step_crowd_func type) h =
    factory-dot func_name wf_step_crowd_name type (refl, (refl, (refl, (refl, tt))))
