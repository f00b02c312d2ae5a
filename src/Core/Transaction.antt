-- ===== src/Core/Transaction.antt =====
-- pkg/core/transcation.go: the crowds of the steps while events are handled, and the changes that
-- are to be told. The loop over direct steps runs on fuel.
pub mod Laws
pub mod Chain
pub mod Overlap
use busybee.Prelude.{
  ℕ, zero, suc, Bool, true, false, Option, none, some, List, [], ◌∷◌, ◌++◌, ◌&&◌, Bytes,
  bytes_equal, get_elem?, set, if◌then◌else◌,
}
use busybee.Prelude.Int.{ℤ}
use busybee.Util.Roaring.{Roaring}
use busybee.Core.Crowd.{Who, ChangedCtx, append_to, remove_from}

-- a map; the entry that was written last comes first
abbrev pub find : {A : Type 0} → Bytes → List (Bytes × A) → Option A
find k [] = none
find k ((j, a) ∷ m) = if bytes_equal k j then some a else find k m

-- the value of a missing key is 0
abbrev pub index_of : List (Bytes × ℕ) → Bytes → ℕ
index_of m k = elim (find k m) [ none ↦ 0 | some i ↦ i ]

-- What a transaction reads of its worker: the users of the worker, the next step of each direct
-- step, the index of each step, and the time to live of each step.
pub record Routes (B : Type 0) : Type 0 where
  pub total_crowds : B
  pub direct_nexts : List (Bytes × Bytes)
  pub step_indexs : List (Bytes × ℕ)
  pub ttls : List ℤ

-- an entry of `changes`, whose users are always a bitmap
pub record Change (B : Type 0) : Type 0 where
  pub from_step : Bytes
  pub to_step : Bytes
  pub users : B
  pub ttl : ℤ

pub record Transaction (B : Type 0) : Type 0 where
  pub step_crowds : List B
  pub changes : List (Change B)

pub data Acted (A : Type 0) : Type 0 where
  acted : A → Acted A
  -- an index out of range
  panicked : Acted A
  -- out of fuel
  looping : Acted A

infixl 5 ◌>>=◌
abbrev pub ◌>>=◌ : {A B : Type 0} → Acted A → (A → Acted B) → Acted B
m >>= f = elim m [ acted a ↦ f a | panicked ↦ panicked | looping ↦ looping ]

-- an element of a slice
abbrev pub at : {A : Type 0} → List A → ℕ → Acted A
at xs i = elim (get_elem? xs i) [ none ↦ panicked | some x ↦ acted x ]

module _ {B : Type 0} (R : Roaring B) where
  -- `acquireBM` and `Or`, for each crowd of the worker
  unfoldable pub start_crowds : List B → List B
  start_crowds [] = []
  start_crowds (crowd ∷ crowds) = R.or R.new crowd ∷ start_crowds crowds

  unfoldable pub start : List B → Transaction B
  unfolding start_crowds
  start crowds = record { step_crowds = start_crowds crowds; changes = [] }

  unfoldable pub remove_from_step : ℕ → Who B → Transaction B → Acted (Transaction B × Bool)
  unfolding remove_from
  remove_from_step idx target tran = do
    bm ← at tran.step_crowds idx
    let (bm', changed) = remove_from R target bm in
        acted (record tran { step_crowds = set tran.step_crowds idx bm' }, changed)

  unfoldable pub move_to_step : ℕ → Who B → Transaction B → Acted (Transaction B × Bool)
  unfolding append_to
  move_to_step idx target tran = do
    bm ← at tran.step_crowds idx
    let (bm', changed) = append_to R target bm in
        acted (record tran { step_crowds = set tran.step_crowds idx bm' }, changed)

  -- the change that is appended
  abbrev pub new_change : ChangedCtx B → Change B
  new_change ctx = record {
    from_step = ctx.from_step;
    to_step = ctx.to_step;
    users = (append_to R ctx.who R.new).0;
    ttl = ctx.ttl;
  }

  unfoldable pub add_to_changes : ChangedCtx B → List (Change B) → List (Change B)
  unfolding append_to
  add_to_changes ctx [] = new_change ctx ∷ []
  add_to_changes ctx (c ∷ cs) =
      let rest = add_to_changes ctx cs in
      if bytes_equal c.from_step ctx.from_step && bytes_equal c.to_step ctx.to_step
      then record c { users = (append_to R ctx.who c.users).0 } ∷ cs
      else c ∷ rest

  unfoldable pub add_changed : ChangedCtx B → Transaction B → Transaction B
  unfolding add_to_changes
  add_changed ctx tran = record tran { changes = add_to_changes ctx tran.changes }

  -- The loop of `maybeTriggerDirectSteps` from one step to the next: the last step, and the
  -- transaction.
  unfoldable pub follow_directs :
      ℕ → Routes B → Who B → Bytes → Bytes → Transaction B → Acted (Bytes × Transaction B)
  unfolding add_changed
  follow_directs zero w who from_step to_step tran = looping
  follow_directs (suc fuel) w who from_step to_step tran = do
    ttl ← at w.ttls (index_of w.step_indexs to_step)
    let ctx : ChangedCtx B = record {
      from_step = from_step;
      to_step = to_step;
      who = who;
      ttl = ttl;
    } in
        elim (find to_step w.direct_nexts) [
          | none ↦ acted (to_step, add_changed ctx tran)
          | some next ↦ follow_directs fuel w who to_step next (add_changed ctx tran)
        ]

  unfoldable pub maybe_trigger_direct_steps :
      ℕ → Routes B → ℕ → ChangedCtx B → Transaction B → Acted (Transaction B)
  unfolding follow_directs remove_from_step move_to_step
  maybe_trigger_direct_steps fuel w current ctx tran = elim (find ctx.to_step w.direct_nexts) [
    | none ↦ acted tran
    | some next ↦ do
      last ← follow_directs fuel w ctx.who ctx.to_step next tran
      left ← remove_from_step current ctx.who last.1
      moved ← move_to_step (index_of w.step_indexs last.0) ctx.who left.0
      acted moved.0
  ]

  -- the users of the worker among the users that move
  abbrev pub own_users : Routes B → Who B → Who B
  own_users w who = elim who.users [
    | none ↦ who
    | some us ↦ record who { users = some (R.and us w.total_crowds) }
  ]

  unfoldable pub step_changed : ℕ → Routes B → ChangedCtx B → Transaction B → Acted (Transaction B)
  unfolding remove_from_step move_to_step add_changed maybe_trigger_direct_steps
  step_changed fuel w given tran =
      let ctx = record given { who = own_users w given.who } in
      let from_idx = index_of w.step_indexs ctx.from_step in
      let to_idx = index_of w.step_indexs ctx.to_step in
      do
        left ← remove_from_step from_idx ctx.who tran
        moved ← move_to_step to_idx ctx.who left.0
        if moved.1
            then (do
              ttl ← at w.ttls to_idx
              let ctx' = record ctx { ttl = ttl } in
                  maybe_trigger_direct_steps fuel w to_idx ctx' (add_changed ctx' moved.0))
            else acted moved.0
