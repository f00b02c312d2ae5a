-- ===== src/Core/Steps.antt =====
-- The steps of a workflow, and how pkg/core/execution.go makes what it runs of them. The
-- expression of a condition, and what `NewRuntime` makes of it, are of types `X` and `E`.
pub mod Build
use busybee.Prelude.{
  ℕ, ◌+◌, Bool, Option, none, some, List, [], ◌∷◌, Bytes, ltb, bytes_equal, if◌then◌else◌,
}
use busybee.Prelude.Int.{ℤ}

-- `ExectuionType`, with the numbers that stand for nothing as one
pub data ExecutionType : Type 0 where
  direct timer branch parallel undefined_type : ExecutionType

pub record TimerExecution (X : Type 0) : Type 0 where
  pub condition : Option X
  pub cron : Bytes
  pub next_step : Bytes
  pub use_step_crowd_to_drive : Bool

-- `metapb.Execution`: the type, the timer, the next step of the direct execution, the branches, and
-- the executions and the next step of the parallel one. A branch has an execution of its own or
-- none.
mutual
  pub data Execution (X : Type 0) : Type 0 where
    execution :
        ExecutionType
        → Option (TimerExecution X)
        → Option Bytes
        → Branches X
        → Executions X
        → Bytes
        → Execution X

  pub data Branches (X : Type 0) : Type 0 where
    no_branch : Branches X
    leaf_branch : X → Bytes → Branches X → Branches X
    nested_branch : X → Execution X → Bytes → Branches X → Branches X

  pub data Executions (X : Type 0) : Type 0 where
    no_execution : Executions X
    more_executions : Execution X → Executions X → Executions X

-- `metapb.Step`
pub record Step (X : Type 0) : Type 0 where
  pub name : Bytes
  pub execution_of : Execution X
  pub enter_action : Bytes
  pub leave_action : Bytes
  pub ttl : ℤ

-- The implementations of `excution`. A condition's execution either moves from a step to the next
-- or runs another execution.
mutual
  pub data Excution (E : Type 0) : Type 0 where
    nil_excution : Excution E
    direct_execution : Bytes → Bytes → Excution E
    condition_execution : ConditionExecution E → Excution E
    branch_execution : ConditionExecutions E → Excution E
    parallel_execution : Bytes → Bytes → Excutions E → Excution E

  pub data ConditionExecution (E : Type 0) : Type 0 where
    moving : Option E → Bytes → Bytes → ConditionExecution E
    running : Option E → Excution E → ConditionExecution E

  pub data ConditionExecutions (E : Type 0) : Type 0 where
    no_condition : ConditionExecutions E
    more_conditions : ConditionExecution E → ConditionExecutions E → ConditionExecutions E

  pub data Excutions (E : Type 0) : Type 0 where
    no_excution : Excutions E
    more_excutions : Excution E → Excutions E → Excutions E
