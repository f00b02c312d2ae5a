-- ===== src/Expr/Runtime.antt =====
-- pkg/expr/runtime.go: an expression with its result type, and the keys that it asks to load, which
-- are computed once (fixed keys) or until they are reset (dynamic keys).
pub mod Laws
use busybee.Prelude.{
  ℕ, Bool, true, false, not, Option, none, some, List, [], ◌∷◌, ◌++◌, Bytes, ◌==◌, if◌then◌else◌,
}
use busybee.Util.Roaring.{Roaring, cardinality}
use busybee.Expr.Run.{Run, ret, or_die, read, ◌>>=◌}
use busybee.Expr.Value.{Value, boolean, bitmap}
use busybee.Expr.Vars.{Format, Now, Ctx, VarExpr, is_fixed, is_dyna, key_of_var}

-- `metapb.ExprResult`
pub data ExprResult : Type 0 where
  bool_result bm_result : ExprResult

pub record Runtime : Type 0 where
  pub fixed : List VarExpr
  pub dynas : List VarExpr
  pub fixed_keys : List Bytes
  pub fixed_keys_parsed : Bool
  pub dyna_keys : List Bytes
  pub dyna_keys_parsed : Bool

unfoldable pub select : (VarExpr → Bool) → List VarExpr → List VarExpr
select f [] = []
select f (v ∷ vs) = let rest = select f vs in if f v then v ∷ rest else rest

-- `NewRuntime`, with the variables that the parser met
unfoldable pub new_runtime : List VarExpr → Runtime
unfolding select
new_runtime vars = record {
  fixed = select is_fixed vars;
  dynas = select is_dyna vars;
  fixed_keys = [];
  fixed_keys_parsed = false;
  dyna_keys = [];
  dyna_keys_parsed = false;
}

-- a type assertion, which panics on another type
abbrev pub as_bool : {Re B : Type 0} → Value Re → Run B Bool
as_bool (boolean b) = ret b
as_bool _ = or_die none

abbrev pub as_bitmap : {Re B : Type 0} → Value Re → Run B ℕ
as_bitmap (bitmap a) = ret a
as_bitmap _ = or_die none

-- `Exec`: the truth of the result, and its bitmap
unfoldable pub exec_runtime :
    {Re B : Type 0} → Roaring B → ExprResult → Run B (Value Re) → Run B (Bool × Option ℕ)
exec_runtime R bool_result expr = do value ← expr; b ← as_bool value; ret (b, none)
exec_runtime R bm_result expr = do
  value ← expr
  a ← as_bitmap value
  bm ← read a
  ret (if cardinality R bm == 0 then (false, none) else (true, some a))

module _ (F : Format) where
  -- The loop over the variables, which appends to the keys that are there: the keys up to an error,
  -- and whether there was none.
  unfoldable pub collect_keys : Now → Ctx → List VarExpr → List Bytes → List Bytes × Bool
  collect_keys now ctx [] keys = (keys, true)
  collect_keys now ctx (v ∷ vs) keys = elim (key_of_var F now ctx v) [
    | none ↦ (keys, false)
    | some key ↦ collect_keys now ctx vs (keys ++ (key ∷ []))
  ]

  -- what is passed to the callback (`none` on an error), and the runtime afterwards
  unfoldable pub handle_fixed_keys : Now → Ctx → Runtime → Option (List Bytes) × Runtime
  unfolding collect_keys
  handle_fixed_keys now ctx rt =
      if rt.fixed_keys_parsed
      then (some rt.fixed_keys, rt)
      else (let (keys, ok) = collect_keys now ctx rt.fixed [] in
          if ok
          then (some keys, record rt { fixed_keys = keys; fixed_keys_parsed = true })
          else (none, record rt { fixed_keys = keys }))

  unfoldable pub handle_dyna_keys : Now → Ctx → Bool → Runtime → Option (List Bytes) × Runtime
  unfolding collect_keys
  handle_dyna_keys now ctx reset_dyna rt =
      let rt' = if reset_dyna then record rt { dyna_keys_parsed = false; dyna_keys = [] } else rt in
      if rt'.dyna_keys_parsed
      then (some rt'.dyna_keys, rt')
      else (let (keys, ok) = collect_keys now ctx rt'.dynas rt'.dyna_keys in
          if ok
          then (some keys, record rt' { dyna_keys = keys; dyna_keys_parsed = true })
          else (none, record rt' { dyna_keys = keys }))

  -- `Keys`: the dynamic keys first
  unfoldable pub keys : Now → Ctx → Bool → Runtime → Option (List Bytes) × Runtime
  unfolding handle_fixed_keys handle_dyna_keys
  keys now ctx reset_dyna rt =
      let (dynas, rt1) = handle_dyna_keys now ctx reset_dyna rt in
      elim dynas [
        | none ↦ (none, rt1)
        | some ds ↦
            let (fixed, rt2) = handle_fixed_keys now ctx rt1 in
            elim fixed [ none ↦ (none, rt2) | some fs ↦ (some (ds ++ fs), rt2) ]
      ]
