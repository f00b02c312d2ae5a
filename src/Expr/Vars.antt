-- ===== src/Expr/Vars.antt =====
-- The variables of pkg/expr: what `varExprFactory` builds from a name, and how each is evaluated.
-- JSON, `fmt.Sprintf` and the clock are interfaces.
pub mod Laws
use busybee.Prelude.{
  ℕ, Bool, true, false, Option, none, some, List, [], ◌∷◌, ◌++◌, Bytes, is_empty, bytes_equal,
  bytes_compare, is_eq, ◌==◌, length, if◌then◌else◌,
}
use busybee.Prelude.Int.{ℤ, pos}
use busybee.Util.Roaring.{Roaring}
use busybee.Expr.Run.{Run, ret, fail, or_fail, ◌>>=◌}
use busybee.Expr.Value.{Text, Value, str, num, bitmap, VarType, by_value_type, convert_by_type}

-- `metapb.UserEvent`
pub record KeyValue : Type 0 where
  pub key : Bytes
  pub value : Bytes

pub record UserEvent : Type 0 where
  pub user_id : ℕ
  pub data' : List KeyValue

-- `Ctx`; a bitmap is its address
pub record Ctx : Type 0 where
  pub event : UserEvent
  pub profile : Bytes → Bytes
  -- `none` is an error
  pub kv : Bytes → Option Bytes
  pub total_crowd : ℕ
  pub step_crowd : ℕ

-- `time.Now()`: its parts, and its formats
pub record Now : Type 0 where
  pub year : ℕ
  pub month : ℕ
  pub day : ℕ
  pub weekday : ℕ
  pub unix : ℤ
  pub time : Bytes
  pub date : Bytes
  pub datetime : Bytes

pub record Format : Type 0 where
  -- `fmt.Sprintf` of a pattern with a number or a text
  pub sprintf_number : Bytes → ℕ → Bytes
  pub sprintf_text : Bytes → Bytes → Bytes
  pub format_uint64 : ℕ → Bytes
  -- `util.ExtractJSONField`
  pub extract_json_field : Bytes → Bytes → Bytes

pub data Func : Type 0 where
  year_func month_func day_func week_func time_func date_func datetime_func timestamp_func
        total_crowd_func step_crowd_func :
      Func

-- what the key of a dynamic variable is made from
pub data Dynamic : Type 0 where
  current_year current_month current_day : Dynamic
  from_event from_kv from_profile : Bytes → Dynamic

pub data VarExpr : Type 0 where
  event_var profile_var kv_var : Bytes → VarType → VarExpr
  dynamic_kv_var : Bytes → Dynamic → VarType → VarExpr
  func_var : Func → VarType → VarExpr

-- `strings.Split` at "."
abbrev pub join_first : ℕ → List Bytes → List Bytes
join_first b [] = (b ∷ []) ∷ []
join_first b (w ∷ ws) = (b ∷ w) ∷ ws

unfoldable pub split : Bytes → List Bytes
split [] = [] ∷ []
split (b ∷ bs) = let rest = split bs in if b == 46 then [] ∷ rest else join_first b rest

-- the value of the first entry with the key; `[]` is nil
unfoldable pub find_attr : Bytes → List KeyValue → Bytes
find_attr attr [] = []
find_attr attr (e ∷ es) =
    let rest = find_attr attr es in if is_eq (bytes_compare e.key attr) then e.value else rest

-- "uid"
abbrev pub uid : Bytes
uid = 117 ∷ 105 ∷ 100 ∷ []

module _ (F : Format) where
  -- the value of an attribute of the event
  abbrev pub get_from_event : Ctx → Bytes → Bytes → Bytes
  get_from_event ctx pattern' attr =
      let value =
        if is_eq (bytes_compare uid attr)
        then F.format_uint64 ctx.event.user_id
        else find_attr attr ctx.event.data' in
      F.sprintf_text pattern' value

  -- `only_key` asks for the key to load and not for the key to read
  abbrev pub get_from_kv : Ctx → Bool → Bytes → Bytes → Option Bytes
  get_from_kv ctx only_key pattern' attr =
      if only_key
      then some attr
      else elim (ctx.kv attr) [ none ↦ none | some value ↦ some (F.sprintf_text pattern' value) ]

  abbrev pub get_from_profile : Ctx → Bool → Bytes → Bytes → Option Bytes
  get_from_profile ctx only_key pattern' attr =
      if only_key then some (ctx.profile attr) else elim (ctx.kv (ctx.profile attr)) [
        | none ↦ none
        | some value ↦
            if is_empty value
            then some []
            else some (F.sprintf_text pattern' (F.extract_json_field value attr))
      ]

  -- `currentKeyFunc`
  unfoldable pub current_key : Now → Ctx → Bool → Bytes → Dynamic → Option Bytes
  unfolding find_attr
  current_key now ctx only_key pattern' current_year = some (F.sprintf_number pattern' now.year)
  current_key now ctx only_key pattern' current_month = some (F.sprintf_number pattern' now.month)
  current_key now ctx only_key pattern' current_day = some (F.sprintf_number pattern' now.day)
  current_key now ctx only_key pattern' (from_event attr) = some (get_from_event ctx pattern' attr)
  current_key now ctx only_key pattern' (from_kv attr) = get_from_kv ctx only_key pattern' attr
  current_key now ctx only_key pattern' (from_profile attr) =
      get_from_profile ctx only_key pattern' attr

  module _ {Re B : Type 0} (T : Text Re) (R : Roaring B) where
    -- `dynaFunc` of a function variable
    abbrev pub func_value : Now → Ctx → Func → Value Re
    func_value now ctx year_func = num (pos now.year)
    func_value now ctx month_func = num (pos now.month)
    func_value now ctx day_func = num (pos now.day)
    func_value now ctx week_func = num (pos now.weekday)
    func_value now ctx time_func = str now.time
    func_value now ctx date_func = str now.date
    func_value now ctx datetime_func = str now.datetime
    func_value now ctx timestamp_func = num now.unix
    func_value now ctx total_crowd_func = bitmap ctx.total_crowd
    func_value now ctx step_crowd_func = bitmap ctx.step_crowd

    -- `Exec` of each variable
    abbrev pub exec_event : Ctx → Bytes → VarType → Run B (Value Re)
    exec_event ctx attr type = by_value_type T R (find_attr attr ctx.event.data') type

    abbrev pub exec_kv : Ctx → Bytes → VarType → Run B (Value Re)
    exec_kv ctx attr type = do value ← or_fail (ctx.kv attr); by_value_type T R value type

    abbrev pub exec_profile : Ctx → Bytes → VarType → Run B (Value Re)
    exec_profile ctx attr type = do
      value ← or_fail (ctx.kv (ctx.profile attr))
      by_value_type T R (if is_empty value then value else F.extract_json_field value attr) type

    abbrev pub exec_dynamic : Now → Ctx → Bytes → Dynamic → VarType → Run B (Value Re)
    exec_dynamic now ctx pattern' dynamic type = do
      attr ← or_fail (current_key now ctx false pattern' dynamic)
      value ← or_fail (ctx.kv attr)
      by_value_type T R value type

    unfoldable pub exec_var : Now → Ctx → VarExpr → Run B (Value Re)
    unfolding find_attr by_value_type convert_by_type current_key
    exec_var now ctx (event_var attr type) = exec_event ctx attr type
    exec_var now ctx (kv_var attr type) = exec_kv ctx attr type
    exec_var now ctx (profile_var attr type) = exec_profile ctx attr type
    exec_var now ctx (dynamic_kv_var pattern' dynamic type) =
        exec_dynamic now ctx pattern' dynamic type
    exec_var now ctx (func_var f type) = convert_by_type T R (func_value now ctx f) type

-- `fixedVarExpr` and `dynaVarExpr`: the variables that read a key, and those whose key moves
abbrev pub is_fixed : VarExpr → Bool
is_fixed (kv_var attr type) = true
is_fixed (profile_var attr type) = true
is_fixed _ = false

abbrev pub is_dyna : VarExpr → Bool
is_dyna (dynamic_kv_var pattern' d type) = true
is_dyna _ = false

-- `Key` and `DynaKey`; `none` is an error
module _ (F : Format) where
  unfoldable pub key_of_var : Now → Ctx → VarExpr → Option Bytes
  unfolding current_key
  key_of_var now ctx (kv_var attr type) = some attr
  key_of_var now ctx (profile_var attr type) = some (ctx.profile attr)
  key_of_var now ctx (dynamic_kv_var pattern' d type) = current_key F now ctx true pattern' d
  key_of_var now ctx _ = none
