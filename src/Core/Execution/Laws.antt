-- ===== src/Core/Execution/Laws.antt =====
-- What running a step's execution, as pkg/core/execution.go does, leaves true of the crowds.
use busybee.Prelude.{
  ℕ, ◌≡◌, ◌≢◌, refl, sym, ap, ◌∙◌, Bool, true, false, Option, none, some, [], Bytes, is_empty,
  arith, Bool-cases, inl, inr, if◌then◌else◌,
}
use busybee.Prelude.Int.{pos}
use busybee.Util.Roaring.{Roaring}
use busybee.Core.Crowd.{Who}
use busybee.Core.Holders.{holders}
use busybee.Core.Steps.{
  Excution, nil_excution, direct_execution, condition_execution, branch_execution,
  parallel_execution, ConditionExecution, moving, running, ConditionExecutions, no_condition,
  more_conditions,
}
use busybee.Core.Transaction.{Routes, Transaction, acted, index_of, own_users, step_changed}
use busybee.Core.Transaction.Laws.{bind-acted, acted-injective, IsTakenFrom, step_changed-holders}
use busybee.Core.Execution.{
  Executed, change_to, change_unless_last, retarget, evaluate, matched, execute, is_nil,
  execute_with_matches, execute_branches,
}

-- An execution that has no parallel one in it, and that moves users out of one step only. Under a
-- condition, an execution of an undefined type moves them out of the step with the empty name.
unfoldable mutual
  pub LeavesOnly : {E : Type 0} → Bytes → Excution E → Type 0
  LeavesOnly s nil_excution = Unit
  LeavesOnly s (direct_execution step next) = step ≡ s
  LeavesOnly s (condition_execution c) = LeavesOnlyIf s c
  LeavesOnly s (branch_execution cs) = LeavesOnlyAll s cs
  LeavesOnly s (parallel_execution step next xs) = true ≡ false

  pub LeavesOnlyIf : {E : Type 0} → Bytes → ConditionExecution E → Type 0
  LeavesOnlyIf s (moving e step next) = step ≡ s
  LeavesOnlyIf s (running e x) = (is_nil x ≡ true → [] ≡ s) × LeavesOnly s x

  pub LeavesOnlyAll : {E : Type 0} → Bytes → ConditionExecutions E → Type 0
  LeavesOnlyAll s no_condition = Unit
  LeavesOnlyAll s (more_conditions c cs) = LeavesOnlyIf s c × LeavesOnlyAll s cs

module _ {B E : Type 0} (R : Roaring B) (exec : E → Transaction B → Option (Bool × Option B))
    (fuel : ℕ) (w : Routes B) (s : Bytes) (tran : Transaction B) (x : ℕ) where
  -- whom a change takes of a target is in the step that is left and in no other
  abbrev pub IsMovable : Who B → Type 0
  IsMovable target =
      IsTakenFrom R (own_users R w target) tran.step_crowds (index_of w.step_indexs s) x

  abbrev Same : Transaction B → Type 0
  Same t = holders R x t.step_crowds ≡ holders R x tran.step_crowds

  change_to-Same :
      (step next : Bytes) (target : Who B) {r : Transaction B × Bool}
      → step ≡ s
      → IsMovable target
      → change_to R exec fuel w step next target tran ≡ acted r
      → Same r.0
  unfolding change_to
  change_to-Same step next target {r} e m h =
      let (t, f, k) =
        bind-acted
          (step_changed R fuel w
            (record { from_step = step; to_step = next; who = target; ttl = pos 0 }) tran)
          _ h in
      ap (λ r. holders R x r.0.step_crowds) (sym (acted-injective k))
      ∙ step_changed-holders R fuel w
          (record { from_step = step; to_step = next; who = target; ttl = pos 0 }) tran x f (rw e m)

  change_unless_last-Same :
      (step next : Bytes) (target : Who B) {r : Transaction B × Bool}
      → step ≡ s
      → IsMovable target
      → change_unless_last R exec fuel w step next target tran ≡ acted r
      → Same r.0
  change_unless_last-Same step next target {r} e m h = elim (Bool-cases (is_empty next)) [
    | inl y ↦ ap (λ r. holders R x r.0.step_crowds) (sym (acted-injective (rw y at h)))
    | inr n ↦ change_to-Same step next target e m (rw n at h)
  ]

  -- each crowd that an expression has for a value in this state is movable
  abbrev pub FindsMovable : Type 0
  FindsMovable =
      (e : E) (matches : Bool) (bm : B)
      → exec e tran ≡ some (matches, some bm)
      → IsMovable (record { user = 0; users = some bm })

  evaluate-IsMovable :
      (e : Option E) (target : Who B) {matches : Bool} {target' : Who B}
      → FindsMovable
      → IsMovable target
      → evaluate R exec e target tran ≡ some (matches, target')
      → IsMovable target'
  evaluate-IsMovable none target {matches} {target'} f m h =
      let same : target' ≡ target = ground (arith, h) in rw same m
  evaluate-IsMovable (some e) target {matches} {target'} f m h = go (exec e tran) refl h
    where
      go :
          (o : Option (Bool × Option B))
          → exec e tran ≡ o
          → ◌≡◌ {A = Option (Bool × Who B)}
              (elim o [ none ↦ none | some (ms, value) ↦ some (ms, retarget R exec target value) ])
              (some (matches, target'))
          → IsMovable target'
      go none y k = cc
      go (some (ms, none)) y k = let same : target' ≡ target = ground (arith, k) in rw same m
      go (some (ms, some bm)) y k =
          let same : ◌≡◌ {A = Who B} target' (record { user = 0; users = some bm }) =
            ground (arith, k) in
          rw same (f e ms bm y)

  matched-acted :
      (m : Executed B) {r : Transaction B × Option Bool}
      → matched R exec m ≡ acted r
      → (q : Transaction B × Bool) × (m ≡ acted q) × (r.0 ≡ q.0) × (r.1 ≢ some false)
  matched-acted m {r} h =
      let (q, e, k) = bind-acted m _ h in
      (q, e, ap (λ r. r.0) (sym (acted-injective k)), λ y. ground (arith, acted-injective k, y))

  -- an execution under a condition
  conditional-Same :
      (o : Option (Bool × Who B)) (run : Who B → Executed B) {r : Transaction B × Option Bool}
      → ((b : Bool) (target' : Who B) (q : Transaction B × Bool)
          → o ≡ some (b, target')
          → run target' ≡ acted q
          → Same q.0)
      → elim o [
        | none ↦ acted (tran, none)
        | some (matches, target') ↦
            if matches then matched R exec (run target') else acted (tran, some false)
      ]
        ≡ acted r
      → Same r.0 × (r.1 ≡ some false → r.0 ≡ tran)
  conditional-Same none run {r} f h =
      let e = acted-injective h in
      (ap (λ r. holders R x r.0.step_crowds) (sym e), λ y. ap (λ r. r.0) (sym e))
  conditional-Same (some (true, target')) run {r} f h =
      let (q, e, k, no_match) = matched-acted (run target') h in
      (ap (λ t. holders R x t.step_crowds) k ∙ f true target' q refl e, λ y. absurd (no_match y))
  conditional-Same (some (false, target')) run {r} f h =
      let e = acted-injective h in
      (ap (λ r. holders R x r.0.step_crowds) (sym e), λ y. ap (λ r. r.0) (sym e))

  mutual
    unfolding execute LeavesOnly

    execute-Same :
        (f : FindsMovable) (ex : Excution E) (target : Who B) {r : Transaction B × Bool}
        → LeavesOnly s ex
        → IsMovable target
        → execute R exec fuel w ex target tran ≡ acted r
        → Same r.0
    execute-Same f nil_excution target l m h = cc
    execute-Same f (direct_execution step next) target l m h =
        change_unless_last-Same step next target l m h
    execute-Same f (condition_execution c) target l m h =
        let (q, e, k) = bind-acted (execute_with_matches R exec fuel w c target tran) _ h in
        ap (λ r. holders R x r.0.step_crowds) (sym (acted-injective k))
        ∙ (execute_with_matches-Same f c target l m e).0
    execute-Same f (branch_execution cs) target l m h = execute_branches-Same f cs target l m h
    execute-Same f (parallel_execution step next xs) target l m h = cc

    -- without a match the transaction is as it was
    execute_with_matches-Same :
        (f : FindsMovable) (c : ConditionExecution E) (target : Who B)
        {r : Transaction B × Option Bool}
        → LeavesOnlyIf s c
        → IsMovable target
        → execute_with_matches R exec fuel w c target tran ≡ acted r
        → Same r.0 × (r.1 ≡ some false → r.0 ≡ tran)
    execute_with_matches-Same f (moving e step next) target l m h =
        conditional-Same (evaluate R exec e target tran)
          (λ target'. change_to R exec fuel w step next target' tran)
          (λ b target' q y k.
            change_to-Same step next target' l (evaluate-IsMovable e target f m y) k)
          h
    execute_with_matches-Same f (running e ex) target l m h =
        conditional-Same (evaluate R exec e target tran)
          (λ target'.
            if is_nil ex
            then change_to R exec fuel w [] [] target' tran
            else execute R exec fuel w ex target' tran)
          (λ b target' q y k. elim (Bool-cases (is_nil ex)) [
            | inl z ↦
                change_to-Same [] [] target' (l.0 z) (evaluate-IsMovable e target f m y) (rw z at k)
            | inr z ↦ execute-Same f ex target' l.1 (evaluate-IsMovable e target f m y) (rw z at k)
          ])
          h

    execute_branches-Same :
        (f : FindsMovable) (cs : ConditionExecutions E) (target : Who B) {r : Transaction B × Bool}
        → LeavesOnlyAll s cs
        → IsMovable target
        → execute_branches R exec fuel w cs target tran ≡ acted r
        → Same r.0
    execute_branches-Same f no_condition target l m h =
        ap (λ r. holders R x r.0.step_crowds) (sym (acted-injective h))
    execute_branches-Same f (more_conditions c cs) target {r} l m h =
        let (q, e, k) = bind-acted (execute_with_matches R exec fuel w c target tran) _ h in
        let (same, unless) = execute_with_matches-Same f c target l.0 m e in
        after q.1 q.0 same unless (λ j. execute_branches-Same f cs target l.1 m j) k
      where
        after :
            (o : Option Bool) (t : Transaction B)
            → Same t
            → (o ≡ some false → t ≡ tran)
            → (execute_branches R exec fuel w cs target tran ≡ acted r → Same r.0)
            → elim o [
              | none ↦ acted (t, false)
              | some ok ↦
                  let rest = execute_branches R exec fuel w cs target t in
                  if ok then acted (t, true) else rest
            ]
              ≡ acted r
            → Same r.0
        after none t same unless later k =
            ap (λ r. holders R x r.0.step_crowds) (sym (acted-injective k)) ∙ same
        after (some true) t same unless later k =
            ap (λ r. holders R x r.0.step_crowds) (sym (acted-injective k)) ∙ same
        after (some false) t same unless later k =
            later (ap (λ u. execute_branches R exec fuel w cs target u) (sym (unless refl)) ∙ k)

-- An execution without parallel ones, which moves users out of one step only, leaves each user in as
-- many crowds as before, an error included, if the users whom it can take, the target's and those of
-- the crowds that expressions have for values, are in that step and in no other, and if expressions
-- change no crowd in place. An undefined nested execution counts as a move out of the step with the
-- empty name.
pub execute_keeps :
    {B E : Type 0} (R : Roaring B) (exec : E → Transaction B → Option (Bool × Option B)) (fuel : ℕ)
    (w : Routes B) (s : Bytes) (tran : Transaction B) (x : ℕ) (ex : Excution E) (target : Who B)
    (t : Transaction B) (ok : Bool)
    → LeavesOnly s ex
    → IsMovable R exec fuel w s tran x target
    → FindsMovable R exec fuel w s tran x
    → execute R exec fuel w ex target tran ≡ acted (t, ok)
    → holders R x t.step_crowds ≡ holders R x tran.step_crowds
execute_keeps R exec fuel w s tran x ex target t ok l m f h =
    execute-Same R exec fuel w s tran x f ex target l m h
