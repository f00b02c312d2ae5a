-- ===== src/Core/Worker.antt =====
-- pkg/core/worker.go: a worker runs the steps of one part of a workflow instance for the users of
-- that part. Timers, queues, the store and the notifier are not here: `add_cron_job` and `schedule`
-- say whether a job could be registered.
pub mod Events
pub mod Crowds
pub mod Laws
pub mod Handling
pub mod Ttl
mod Tests
use busybee.Prelude.{
  ℕ, ◌+◌, ◌%◌, ◌^◌, Bool, true, false, not, Option, none, some, List, [], ◌∷◌, ◌++◌, ◌&&◌, Bytes,
  is_empty, if◌then◌else◌,
}
use busybee.Prelude.Int.{ℤ, pos, ltb_ℤ}
use busybee.Util.Roaring.{Roaring}
use busybee.Core.Steps.{Step, TimerExecution, Execution, execution, ExecutionType, direct, Excution}
use busybee.Core.Steps.Build.{new_excution}
use busybee.Core.Transaction.{find, Routes}

-- what a worker keeps of the steps of its workflow
pub record StepMaps (E : Type 0) : Type 0 where
  pub direct_nexts : List (Bytes × Bytes)
  pub steps : List (Bytes × Excution E)
  pub step_indexs : List (Bytes × ℕ)
  pub entry_actions : List (Bytes × Bytes)
  pub leave_actions : List (Bytes × Bytes)

abbrev pub no_maps : {E : Type 0} → StepMaps E
no_maps = record {
  direct_nexts = [];
  steps = [];
  step_indexs = [];
  entry_actions = [];
  leave_actions = [];
}

-- The worker and its `state`; `states` holds the step of each `StepState`, whose loader and size are
-- written anew from the crowds.
pub record StateWorker (B X E : Type 0) : Type 0 where
  pub tenant_id : ℕ
  pub workflow_id : ℕ
  pub instance_id : ℕ
  pub index : ℕ
  pub version : ℕ
  pub states : List (Step X)
  pub total_crowds : B
  pub step_crowds : List B
  pub maps : StepMaps E

abbrev ttls_of : {X : Type 0} → List (Step X) → List ℤ
ttls_of [] = []
ttls_of (s ∷ ss) = s.ttl ∷ ttls_of ss

-- what a transaction of the worker reads
abbrev pub routes_of : {B X E : Type 0} → StateWorker B X E → Routes B
routes_of w = record {
  total_crowds = w.total_crowds;
  direct_nexts = w.maps.direct_nexts;
  step_indexs = w.maps.step_indexs;
  ttls = ttls_of w.states;
}

unfoldable pub is_direct_step : {E : Type 0} → StepMaps E → Bytes → Bool
is_direct_step maps name = elim (find name maps.direct_nexts) [ none ↦ false | some next ↦ true ]

-- the next step of a direct execution
unfoldable pub direct_next : {X : Type 0} → Execution X → Option Bytes
direct_next (execution direct t none bs es next) = none
direct_next (execution direct t (some step) bs es next) = if is_empty step then none else some step
direct_next (execution _ t d bs es next) = none

-- the cron expression of a timer
abbrev cron_of : {X : Type 0} → Execution X → Option Bytes
cron_of (execution type none d bs es next) = none
cron_of (execution type (some t) d bs es next) = some t.cron

module _ {X E : Type 0} (new_runtime : X → Option E) (add_cron_job : Bytes → Bool) where
  -- the maps with one step more
  unfoldable pub add_step : Step X → ℕ → Excution E → StepMaps E → StepMaps E
  unfolding direct_next
  add_step step idx exec maps = record {
    direct_nexts = elim (direct_next step.execution_of) [
      | none ↦ maps.direct_nexts
      | some next ↦ (step.name, next) ∷ maps.direct_nexts
    ];
    steps = (step.name, exec) ∷ maps.steps;
    step_indexs = (step.name, idx) ∷ maps.step_indexs;
    entry_actions = (step.name, step.enter_action) ∷ maps.entry_actions;
    leave_actions = (step.name, step.leave_action) ∷ maps.leave_actions;
  }

  -- whether the timer of a step could be registered
  abbrev pub adds_timer : Step X → Bool
  adds_timer step = elim (cron_of step.execution_of) [ none ↦ true | some cron ↦ add_cron_job cron ]

  -- One step of the loops of `resetByState` and `doUpdateWorkflow`, up to the maps: `none` for an
  -- error.
  unfoldable pub register_step : Step X → ℕ → StepMaps E → Option (StepMaps E)
  unfolding new_excution add_step
  register_step step idx maps = elim (new_excution new_runtime step.name step.execution_of) [
    | none ↦ none
    | some exec ↦ if adds_timer step then some (add_step step idx exec maps) else none
  ]
