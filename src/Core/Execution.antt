-- ===== src/Core/Execution.antt =====
-- `Execute` of pkg/core/execution.go. Evaluating an expression, `Exec` of pkg/expr's `Runtime` in the
-- context of the transaction, is a parameter here: it answers with an error (`none`), or with whether
-- it matches and the bitmap that it has for a value. It is a function of the transaction, so what is
-- modelled are expressions that change no bitmap of the worker: the worker's crowds are what `wf_crowd`
-- and `wf_step_crowd` give out, and `&&`, `||` and `-` write to a bitmap on their left.
pub mod Laws
pub mod Errors
use busybee.Prelude.{
  ℕ, Bool, true, false, Option, none, some, List, [], ◌∷◌, Bytes, is_empty, if◌then◌else◌,
}
use busybee.Prelude.Int.{pos}
use busybee.Util.Roaring.{Roaring}
use busybee.Core.Crowd.{Who, ChangedCtx}
use busybee.Core.Steps.{
  Excution, nil_excution, direct_execution, condition_execution, branch_execution,
  parallel_execution, ConditionExecution, moving, running, ConditionExecutions, no_condition,
  more_conditions, Excutions, no_excution, more_excutions,
}
use busybee.Core.Transaction.{Routes, Transaction, Acted, acted, panicked, ◌>>=◌, step_changed}

-- a transaction, and whether the error is nil
abbrev pub Executed : Type 0 → Type 0
Executed B = Acted (Transaction B × Bool)

-- `e.exec == nil`
abbrev pub is_nil : {E : Type 0} → Excution E → Bool
is_nil nil_excution = true
is_nil _ = false

module _ {B E : Type 0} (R : Roaring B) (exec : E → Transaction B → Option (Bool × Option B)) where
  -- `stepChanged` from a step to the next one, with no time to live
  abbrev pub change_to : ℕ → Routes B → Bytes → Bytes → Who B → Transaction B → Executed B
  unfolding step_changed
  change_to fuel w step next target tran = do
    tran' ←
        step_changed R fuel w
          (record { from_step = step; to_step = next; who = target; ttl = pos 0 }) tran
    acted (tran', true)

  abbrev pub change_unless_last : ℕ → Routes B → Bytes → Bytes → Who B → Transaction B → Executed B
  change_unless_last fuel w step next target tran =
      if is_empty next then acted (tran, true) else change_to fuel w step next target tran

  -- the crowd of an expression's value in place of the target
  abbrev pub retarget : Who B → Option B → Who B
  retarget target none = target
  retarget target (some bm) = record { user = 0; users = some bm }

  -- The condition of an execution, which changes no crowd: whether it matches, and whom; `none` for an
  -- error.
  abbrev pub evaluate : Option E → Who B → Transaction B → Option (Bool × Who B)
  evaluate none target tran = some (true, target)
  evaluate (some e) target tran = elim (exec e tran) [
    | none ↦ none
    | some (matches, value) ↦ some (matches, retarget target value)
  ]

  -- a transaction, and whether it matched, `none` for an error
  abbrev pub Matched : Type 0
  Matched = Acted (Transaction B × Option Bool)

  abbrev pub matched : Executed B → Matched
  matched m = do r ← m; acted (r.0, (if r.1 then some true else none))

  unfoldable mutual
    pub execute : ℕ → Routes B → Excution E → Who B → Transaction B → Executed B
    execute fuel w nil_excution target tran = panicked
    execute fuel w (direct_execution step next) target tran =
        change_unless_last fuel w step next target tran
    execute fuel w (condition_execution c) target tran = do
      r ← execute_with_matches fuel w c target tran
      acted (r.0, elim r.1 [ none ↦ false | some b ↦ true ])
    execute fuel w (branch_execution cs) target tran = execute_branches fuel w cs target tran
    execute fuel w (parallel_execution step next es) target tran = do
      r ← execute_all fuel w es target tran
      if r.1 then change_unless_last fuel w step next target r.0 else acted (r.0, false)

    -- `executeWithMatches`; `Execute` of a condition's execution does the same and says less. With a
    -- nil `exec` the code goes on to the step names, which are empty where the branch had an execution.
    pub execute_with_matches : ℕ → Routes B → ConditionExecution E → Who B → Transaction B → Matched
    execute_with_matches fuel w (moving e step next) target tran = elim (evaluate e target tran) [
      | none ↦ acted (tran, none)
      | some (matches, target') ↦
          if matches
          then matched (change_to fuel w step next target' tran)
          else acted (tran, some false)
    ]
    execute_with_matches fuel w (running e x) target tran = elim (evaluate e target tran) [
      | none ↦ acted (tran, none)
      | some (matches, target') ↦
          let nested = execute fuel w x target' tran in
          let run = if is_nil x then change_to fuel w [] [] target' tran else nested in
          if matches then matched run else acted (tran, some false)
    ]

    -- the loop over the branches, up to an error or a match
    pub execute_branches : ℕ → Routes B → ConditionExecutions E → Who B → Transaction B → Executed B
    execute_branches fuel w no_condition target tran = acted (tran, true)
    execute_branches fuel w (more_conditions c cs) target tran = do
      r ← execute_with_matches fuel w c target tran
      elim r.1 [
        | none ↦ acted (r.0, false)
        | some ok ↦
            let rest = execute_branches fuel w cs target r.0 in
            if ok then acted (r.0, true) else rest
      ]

    -- the loop over the executors, up to an error
    pub execute_all : ℕ → Routes B → Excutions E → Who B → Transaction B → Executed B
    execute_all fuel w no_excution target tran = acted (tran, true)
    execute_all fuel w (more_excutions x xs) target tran = do
      r ← execute fuel w x target tran
      let rest = execute_all fuel w xs target r.0 in if r.1 then rest else acted (r.0, false)
