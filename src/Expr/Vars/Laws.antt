-- ===== src/Expr/Vars/Laws.antt =====
-- Loading the key of a variable of pkg/expr is enough to evaluate it.
use busybee.Prelude.{◌≡◌, refl, Bool, true, false, Option, none, some, Bytes, arith}
use busybee.Util.Roaring.{Roaring}
use busybee.Expr.Run.{Heap}
use busybee.Expr.Value.{Text}
use busybee.Expr.Vars.{
  Format, Now, Ctx, current_year, current_month, current_day, from_event, from_kv, from_profile,
  VarExpr, event_var, profile_var, kv_var, dynamic_kv_var, func_var, current_key, exec_var,
  key_of_var,
}

-- The key does not hang on another key's value.
abbrev pub is_direct : VarExpr → Bool
is_direct (dynamic_kv_var pattern' (from_kv attr) type) = false
is_direct (dynamic_kv_var pattern' (from_profile attr) type) = false
is_direct _ = true

-- the two contexts' values agree on the key, if there is one
abbrev pub AgreeOn : Ctx → (Bytes → Option Bytes) → Option Bytes → Type 0
AgreeOn ctx kv' none = Unit
AgreeOn ctx kv' (some key) = kv' key ≡ ctx.kv key

module _ (F : Format) {Re B : Type 0} (T : Text Re) (R : Roaring B) where
  -- A variable whose key hangs on no other key's value evaluates alike in two contexts that differ
  -- in stored values only and agree on the key that it asks to load.
  pub preload_suffices :
      (now : Now) (ctx : Ctx) (kv' : Bytes → Option Bytes) (v : VarExpr) (h : Heap B)
      → is_direct v ≡ true
      → AgreeOn ctx kv' (key_of_var F now ctx v)
      → exec_var F T R now (record ctx { kv = kv' }) v h ≡ exec_var F T R now ctx v h
  unfolding exec_var key_of_var current_key
  preload_suffices now ctx kv' (event_var attr type) h d a = refl
  preload_suffices now ctx kv' (kv_var attr type) h d a = rw a refl
  preload_suffices now ctx kv' (profile_var attr type) h d a = rw a refl
  preload_suffices now ctx kv' (func_var f type) h d a = ground arith
  preload_suffices now ctx kv' (dynamic_kv_var pattern' current_year type) h d a = rw a refl
  preload_suffices now ctx kv' (dynamic_kv_var pattern' current_month type) h d a = rw a refl
  preload_suffices now ctx kv' (dynamic_kv_var pattern' current_day type) h d a = rw a refl
  preload_suffices now ctx kv' (dynamic_kv_var pattern' (from_event attr) type) h d a = rw a refl
  preload_suffices now ctx kv' (dynamic_kv_var pattern' (from_kv attr) type) h d a =
      absurd (ground arith)
  preload_suffices now ctx kv' (dynamic_kv_var pattern' (from_profile attr) type) h d a =
      absurd (ground arith)
