-- ===== src/Core/Execution/Errors.antt =====
-- What an error of an execution in pkg/core/execution.go leaves behind, before the retry of the loops
-- in transcation.go.
use busybee.Prelude.{
  ℕ, ◌≡◌, ◌≢◌, refl, sym, ap, ◌∙◌, Bool, true, false, Option, none, some, [], Bytes, is_empty,
  arith, Bool-cases, inl, inr, if◌then◌else◌,
}
use busybee.Prelude.Int.{pos}
use busybee.Util.Roaring.{Roaring}
use busybee.Core.Crowd.{Who}
use busybee.Core.Steps.{
  Excution, nil_excution, direct_execution, condition_execution, branch_execution,
  parallel_execution, ConditionExecution, moving, running, ConditionExecutions, no_condition,
  more_conditions,
}
use busybee.Core.Transaction.{Routes, Transaction, acted, step_changed}
use busybee.Core.Transaction.Laws.{bind-acted, acted-injective}
use busybee.Core.Execution.{
  Executed, change_to, change_unless_last, evaluate, matched, execute, is_nil, execute_with_matches,
  execute_branches,
}
use busybee.Core.Execution.Laws.{LeavesOnly, LeavesOnlyIf, LeavesOnlyAll}

module _ {B E : Type 0} (R : Roaring B) (exec : E → Transaction B → Option (Bool × Option B))
    (fuel : ℕ) (w : Routes B) (s : Bytes) (tran : Transaction B) where
  change_to-ok :
      (step next : Bytes) (target : Who B) {r : Transaction B × Bool}
      → change_to R exec fuel w step next target tran ≡ acted r
      → r.1 ≡ true
  unfolding change_to
  change_to-ok step next target {r} h =
      let (t, f, k) =
        bind-acted
          (step_changed R fuel w
            (record { from_step = step; to_step = next; who = target; ttl = pos 0 }) tran)
          _ h in
      ap (λ r. r.1) (sym (acted-injective k))

  change_unless_last-ok :
      (step next : Bytes) (target : Who B) {r : Transaction B × Bool}
      → change_unless_last R exec fuel w step next target tran ≡ acted r
      → r.1 ≡ true
  change_unless_last-ok step next target {r} h = elim (Bool-cases (is_empty next)) [
    | inl y ↦ ap (λ r. r.1) (sym (acted-injective (rw y at h)))
    | inr n ↦ change_to-ok step next target (rw n at h)
  ]

  -- unless there was a match, the transaction is as it was
  abbrev Unless : Transaction B × Option Bool → Type 0
  Unless r = r.1 ≢ some true → r.0 ≡ tran

  conditional-Unless :
      (o : Option (Bool × Who B)) (run : Who B → Executed B) {r : Transaction B × Option Bool}
      → ((target' : Who B) (q : Transaction B × Bool)
          → run target' ≡ acted q
          → q.1 ≡ false
          → q.0 ≡ tran)
      → elim o [
        | none ↦ acted (tran, none)
        | some (matches, target') ↦
            if matches then matched R exec (run target') else acted (tran, some false)
      ]
        ≡ acted r
      → Unless r
  conditional-Unless none run f h = λ y. ap (λ r. r.0) (sym (acted-injective h))
  conditional-Unless (some (false, target')) run f h = λ y. ap (λ r. r.0) (sym (acted-injective h))
  conditional-Unless (some (true, target')) run {r} f h =
      let (q, e, k) = bind-acted (run target') _ h in
      elim (Bool-cases q.1) [
        | inl y ↦ λ no. absurd (no (ground (arith, y, acted-injective k)))
        | inr n ↦ λ no. ap (λ r. r.0) (sym (acted-injective k)) ∙ f target' q e n
      ]

  mutual
    unfolding execute LeavesOnly

    execute-failed :
        (ex : Excution E) (target : Who B) {r : Transaction B × Bool}
        → LeavesOnly s ex
        → execute R exec fuel w ex target tran ≡ acted r
        → r.1 ≡ false
        → r.0 ≡ tran
    execute-failed nil_excution target l h n = cc
    execute-failed (direct_execution step next) target l h n =
        let y = change_unless_last-ok step next target h in cc
    execute-failed (condition_execution c) target {r} l h n =
        let (q, e, k) = bind-acted (execute_with_matches R exec fuel w c target tran) _ h in
        ap (λ r. r.0) (sym (acted-injective k))
        ∙ execute_with_matches-Unless c target l e (λ y. ground (arith, y, n, acted-injective k))
    execute-failed (branch_execution cs) target l h n = execute_branches-failed cs target l h n
    execute-failed (parallel_execution step next xs) target l h n = cc

    execute_with_matches-Unless :
        (c : ConditionExecution E) (target : Who B) {r : Transaction B × Option Bool}
        → LeavesOnlyIf s c
        → execute_with_matches R exec fuel w c target tran ≡ acted r
        → Unless r
    execute_with_matches-Unless (moving e step next) target l h =
        conditional-Unless (evaluate R exec e target tran)
          (λ target'. change_to R exec fuel w step next target' tran)
          (λ target' q k n. let y = change_to-ok step next target' k in cc) h
    execute_with_matches-Unless (running e ex) target l h =
        conditional-Unless (evaluate R exec e target tran)
          (λ target'.
            if is_nil ex
            then change_to R exec fuel w [] [] target' tran
            else execute R exec fuel w ex target' tran)
          (λ target' q k n. elim (Bool-cases (is_nil ex)) [
            | inl z ↦ let y = change_to-ok [] [] target' (rw z at k) in cc
            | inr z ↦ execute-failed ex target' l.1 (rw z at k) n
          ])
          h

    execute_branches-failed :
        (cs : ConditionExecutions E) (target : Who B) {r : Transaction B × Bool}
        → LeavesOnlyAll s cs
        → execute_branches R exec fuel w cs target tran ≡ acted r
        → r.1 ≡ false
        → r.0 ≡ tran
    execute_branches-failed no_condition target l h n = ap (λ r. r.0) (sym (acted-injective h))
    execute_branches-failed (more_conditions c cs) target {r} l h n =
        let (q, e, k) = bind-acted (execute_with_matches R exec fuel w c target tran) _ h in
        after q.1 q.0 (execute_with_matches-Unless c target l.0 e)
          (λ j. execute_branches-failed cs target l.1 j n) k
      where
        after :
            (o : Option Bool) (t : Transaction B)
            → (o ≢ some true → t ≡ tran)
            → (execute_branches R exec fuel w cs target tran ≡ acted r → r.0 ≡ tran)
            → elim o [
              | none ↦ acted (t, false)
              | some ok ↦
                  let rest = execute_branches R exec fuel w cs target t in
                  if ok then acted (t, true) else rest
            ]
              ≡ acted r
            → r.0 ≡ tran
        after none t unless later k = ap (λ r. r.0) (sym (acted-injective k)) ∙ unless (λ y. cc)
        after (some true) t unless later k =
            let bad : true ≡ false = ap (λ r. r.1) (acted-injective k) ∙ n in cc
        after (some false) t unless later k = later (
            ap (λ u. execute_branches R exec fuel w cs target u)
              (sym (unless (λ y. ground (arith, y))))
            ∙ k)

-- An execution without parallel ones, which moves users out of one step only, leaves the transaction
-- as it was where it ends with an error, so the retry starts where the attempt did. Expressions change
-- no crowd in place, and an undefined nested execution counts as a move out of the step with the empty
-- name.
pub error_changes_nothing :
    {B E : Type 0} (R : Roaring B) (exec : E → Transaction B → Option (Bool × Option B)) (fuel : ℕ)
    (w : Routes B) (s : Bytes) (tran t : Transaction B) (ex : Excution E) (target : Who B)
    → LeavesOnly s ex
    → execute R exec fuel w ex target tran ≡ acted (t, false)
    → t ≡ tran
error_changes_nothing R exec fuel w s tran t ex target l h =
    execute-failed R exec fuel w s tran ex target l h refl
