-- ===== src/Expr/Runtime/Laws.antt =====
-- What the keys of a runtime of pkg/expr are, call after call.
use busybee.Prelude.{
  All, ◌≡◌, refl, Bool, true, none, some, List, [], ◌∷◌, ◌++◌, Bytes, map, arith, if◌then◌else◌,
}
use mathlib.Core.List.{append_assoc, append-nil}
use busybee.Expr.Value.{VarType}
use busybee.Expr.Vars.{
  Dynamic, event_var, func_var, Format, Now, Ctx, VarExpr, kv_var, profile_var, dynamic_kv_var,
  is_fixed, is_dyna, key_of_var, current_key, from_event, from_kv, from_profile, current_year,
  current_month, current_day,
}
use busybee.Expr.Runtime.{
  select, new_runtime, collect_keys, handle_fixed_keys, handle_dyna_keys, keys,
}

module _ (F : Format) where
  -- the key of a variable that has one
  abbrev pub own_key : Now → Ctx → VarExpr → Bytes
  own_key now ctx v = elim (key_of_var F now ctx v) [ none ↦ [] | some key ↦ key ]

  abbrev HasKey : Now → Ctx → VarExpr → Type 0
  HasKey now ctx v = key_of_var F now ctx v ≡ some (own_key now ctx v)

  collect_keys-HasKey :
      (now : Now) (ctx : Ctx) (vs : List VarExpr) (ks : List Bytes)
      → All (HasKey now ctx) vs
      → collect_keys F now ctx vs ks ≡ (ks ++ map (own_key now ctx) vs, true)
  unfolding collect_keys
  collect_keys-HasKey now ctx [] ks h = rw append-nil refl
  collect_keys-HasKey now ctx (v ∷ vs) ks h = ground (
    arith,
    h.0,
    collect_keys-HasKey now ctx vs (ks ++ (own_key now ctx v ∷ [])) h.1,
    append_assoc ks (own_key now ctx v ∷ []) (map (own_key now ctx) vs),
  )

  dynamic-HasKey :
      (now : Now) (ctx : Ctx) (pattern' : Bytes) (d : Dynamic) (type : VarType)
      → HasKey now ctx (dynamic_kv_var pattern' d type)
  unfolding key_of_var current_key
  dynamic-HasKey now ctx pattern' current_year type = refl
  dynamic-HasKey now ctx pattern' current_month type = refl
  dynamic-HasKey now ctx pattern' current_day type = refl
  dynamic-HasKey now ctx pattern' (from_event attr) type = refl
  dynamic-HasKey now ctx pattern' (from_kv attr) type = refl
  dynamic-HasKey now ctx pattern' (from_profile attr) type = refl

  fixed-HasKey :
      (now : Now) (ctx : Ctx) (vs : List VarExpr) → All (HasKey now ctx) (select is_fixed vs)
  unfolding select key_of_var
  fixed-HasKey now ctx [] = tt
  fixed-HasKey now ctx (event_var a t ∷ vs) = fixed-HasKey now ctx vs
  fixed-HasKey now ctx (kv_var a t ∷ vs) = (refl, fixed-HasKey now ctx vs)
  fixed-HasKey now ctx (profile_var a t ∷ vs) = (refl, fixed-HasKey now ctx vs)
  fixed-HasKey now ctx (dynamic_kv_var p d t ∷ vs) = fixed-HasKey now ctx vs
  fixed-HasKey now ctx (func_var f t ∷ vs) = fixed-HasKey now ctx vs

  dyna-HasKey :
      (now : Now) (ctx : Ctx) (vs : List VarExpr) → All (HasKey now ctx) (select is_dyna vs)
  unfolding select
  dyna-HasKey now ctx [] = tt
  dyna-HasKey now ctx (event_var a t ∷ vs) = dyna-HasKey now ctx vs
  dyna-HasKey now ctx (kv_var a t ∷ vs) = dyna-HasKey now ctx vs
  dyna-HasKey now ctx (profile_var a t ∷ vs) = dyna-HasKey now ctx vs
  dyna-HasKey now ctx (dynamic_kv_var p d t ∷ vs) =
      (dynamic-HasKey now ctx p d t, dyna-HasKey now ctx vs)
  dyna-HasKey now ctx (func_var f t ∷ vs) = dyna-HasKey now ctx vs

  -- A call of `Keys` on a new runtime gives the keys of the dynamic variables, and then those of the
  -- fixed variables, in the context of the call. A second call in any other context gives the dynamic
  -- variables' keys in its own context if it resets them, and else the first call's; the fixed
  -- variables' keys are the first call's in both cases: a profile's key stays the first user's.
  pub keys_frozen :
      (vars : List VarExpr) (now now' : Now) (ctx ctx' : Ctx) (reset reset' : Bool)
      → let first = keys F now ctx reset (new_runtime vars) in
        let fixed = map (own_key now ctx) (select is_fixed vars) in
        let dynas = map (own_key now ctx) (select is_dyna vars) in
        (first.0 ≡ some (dynas ++ fixed))
        × ((keys F now' ctx' reset' first.1).0
            ≡ some (
                (if reset' then map (own_key now' ctx') (select is_dyna vars) else dynas) ++ fixed))
  unfolding keys handle_fixed_keys handle_dyna_keys new_runtime
  keys_frozen vars now now' ctx ctx' reset reset' =
      let d = collect_keys-HasKey now ctx (select is_dyna vars) [] (dyna-HasKey now ctx vars) in
      let d' =
        collect_keys-HasKey now' ctx' (select is_dyna vars) [] (dyna-HasKey now' ctx' vars) in
      let f = collect_keys-HasKey now ctx (select is_fixed vars) [] (fixed-HasKey now ctx vars) in
      (ground (arith, d, f), ground (arith, d, d', f))
