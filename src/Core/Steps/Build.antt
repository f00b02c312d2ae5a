-- ===== src/Core/Steps/Build.antt =====
-- `newExcution` and `checkExcution` of pkg/core/execution.go.
use busybee.Prelude.{
  ℕ, ◌+◌, Bool, true, false, Option, none, some, List, [], ◌∷◌, Bytes, ltb, if◌then◌else◌,
}
use busybee.Core.Steps.{
  direct, timer, branch, parallel, undefined_type, TimerExecution, Execution, execution, Branches,
  no_branch, leaf_branch, nested_branch, Executions, no_execution, more_executions, Step, Excution,
  nil_excution, direct_execution, condition_execution, branch_execution, parallel_execution, moving,
  running, ConditionExecutions, no_condition, more_conditions, Excutions, no_excution,
  more_excutions,
}

module _ {X : Type 0} where
  abbrev count_branches : Branches X → ℕ
  count_branches no_branch = 0
  count_branches (leaf_branch x next bs) = count_branches bs + 1
  count_branches (nested_branch x e next bs) = count_branches bs + 1

  abbrev count_executions : Executions X → ℕ
  count_executions no_execution = 0
  count_executions (more_executions e es) = count_executions es + 1

infixl 5 ◌>>=◌
abbrev ◌>>=◌ : {A B : Type 0} → Option A → (A → Option B) → Option B
m >>= f = elim m [ none ↦ none | some a ↦ f a ]

module _ {X E : Type 0} (new_runtime : X → Option E) where
  -- the timer's execution, `none` for an error
  abbrev new_timer : Bytes → Option (TimerExecution X) → Option (Excution E)
  new_timer step none = none
  new_timer step (some t) = elim t.condition [
    | none ↦ some (condition_execution (moving none step t.next_step))
    | some x ↦ do e ← new_runtime x; some (condition_execution (moving (some e) step t.next_step))
  ]

  abbrev new_direct : Bytes → Option Bytes → Option (Excution E)
  new_direct step none = none
  new_direct step (some next) = some (direct_execution step next)

  unfoldable mutual
    -- `none` for an error; an undefined type gives nil without one
    pub new_excution : Bytes → Execution X → Option (Excution E)
    new_excution step (execution direct t d bs es next) = new_direct step d
    new_excution step (execution timer t d bs es next) = new_timer step t
    new_excution step (execution branch t d bs es next) = do
      branches ← new_branches step bs
      if ltb (count_branches bs) 2 then none else some (branch_execution branches)
    new_excution step (execution parallel t d bs es next) = do
      excutions ← new_parallels step es
      if ltb (count_executions es) 2 then none else some (parallel_execution step next excutions)
    new_excution step (execution undefined_type t d bs es next) = some nil_excution

    pub new_branches : Bytes → Branches X → Option (ConditionExecutions E)
    new_branches step no_branch = some no_condition
    new_branches step (leaf_branch x next bs) = do
      r ← new_runtime x
      rest ← new_branches step bs
      some (more_conditions (moving (some r) step next) rest)
    new_branches step (nested_branch x e next bs) = do
      r ← new_runtime x
      exec ← new_excution step e
      rest ← new_branches step bs
      some (more_conditions (running (some r) exec) rest)

    pub new_parallels : Bytes → Executions X → Option (Excutions E)
    new_parallels step no_execution = some no_excution
    new_parallels step (more_executions e es) = do
      exec ← new_excution step e
      rest ← new_parallels step es
      some (more_excutions exec rest)

  -- whether there is no error
  unfoldable pub check_excution : List (Step X) → Bool
  unfolding new_excution
  check_excution [] = true
  check_excution (step ∷ steps) = elim (new_excution step.name step.execution_of) [
    | none ↦ false
    | some e ↦ check_excution steps
  ]
