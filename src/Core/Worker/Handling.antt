-- ===== src/Core/Worker/Handling.antt =====
-- How a worker of pkg/core/worker.go handles an event in its transaction (transcation.go), and how it
-- completes the transaction. What a retry meets, the time and the stored values, is an attempt: an
-- evaluation of expressions; the attempts end when the worker is stopped.
pub mod Laws
use busybee.Prelude.{
  ℕ, zero, suc, ◌+◌, ◌%◌, Bool, true, false, not, Option, none, some, List, [], ◌∷◌, Bytes, ◌==◌,
  get_elem?, map, if◌then◌else◌,
}
use busybee.Prelude.Int.{ℤ}
use busybee.Util.Roaring.{Roaring, cardinality}
use busybee.Storage.Wire.{u64_mod}
use busybee.Core.Crowd.{Who, single_user, crowd_data}
use busybee.Core.Steps.{
  Step, Execution, execution, ExecutionType, timer, TimerExecution, Excution, nil_excution,
}
use busybee.Core.Transaction.{Transaction, Change, Acted, acted, panicked, ◌>>=◌, at, find, start}
use busybee.Core.Execution.{execute}
use busybee.Core.Worker.{StateWorker, routes_of}
use busybee.Core.Worker.Crowds.{copy_crowds}

abbrev pub Attempt : Type 0 → Type 0 → Type 0
Attempt B E = E → Transaction B → Option (Bool × Option B)

-- `metapb.Notify`, of the worker's own tenant, workflow and instance
pub record Notify : Type 0 where
  pub user_id : ℕ
  pub crowd : Option Bytes
  pub from_step : Bytes
  pub to_step : Bytes
  pub to_step_cycle_ttl : ℤ
  pub from_action : Option Bytes
  pub to_action : Option Bytes

module _ {B X E : Type 0} (R : Roaring B) (fuel : ℕ) (w : StateWorker B X E) where
  -- the loop around `Execute`: again after an error, with what the error left
  unfoldable pub execute_until_done :
      List (Attempt B E) → Excution E → Who B → Transaction B → Acted (Transaction B)
  unfolding execute
  execute_until_done [] ex target tran = acted tran
  execute_until_done (exec ∷ rest) ex target tran = do
    r ← execute R exec fuel (routes_of w) ex target tran
    let later = execute_until_done rest ex target r.0 in if r.1 then acted r.0 else later

  -- the execution of a step; a missing one is nil
  abbrev pub step_execution : Bytes → Excution E
  step_execution name = elim (find name w.maps.steps) [ none ↦ nil_excution | some ex ↦ ex ]

  -- the first crowd that has a user, from an index on
  unfoldable pub crowd_of : ℕ → ℕ → List B → Option ℕ
  crowd_of user idx [] = none
  crowd_of user idx (c ∷ cs) =
      let later = crowd_of user (idx + 1) cs in if R.contains c user then some idx else later

  unfoldable pub do_user_event : List (Attempt B E) → ℕ → Transaction B → Acted (Transaction B)
  unfolding execute_until_done crowd_of
  do_user_event attempts user tran = elim (crowd_of user 0 tran.step_crowds) [
    | none ↦ acted tran
    | some idx ↦ do
      step ← at w.states idx
      execute_until_done attempts (step_execution step.name) (record { user = user; users = none })
          tran
  ]

  -- the timer of a step, if its execution is one
  abbrev pub timer_of : Execution X → Option (Option (TimerExecution X))
  timer_of (execution timer t d bs es next) = some t
  timer_of (execution _ t d bs es next) = none

  -- `doStepTimerEvent`
  unfoldable pub do_step_timer_event :
      List (Attempt B E) → ℕ → Transaction B → Acted (Transaction B)
  unfolding execute_until_done
  do_step_timer_event attempts idx tran = do
    step ← at w.states idx
    elim (timer_of step.execution_of) [
      | none ↦ acted tran
      | some none ↦ panicked
      | some (some t) ↦
          let run : Who B → Acted (Transaction B) =
            λ target. execute_until_done attempts (step_execution step.name) target tran in
          if t.use_step_crowd_to_drive
          then (do
            crowd ← at tran.step_crowds idx
            if cardinality R crowd == 0
                then acted tran
                else run (record { user = 0; users = some crowd }))
          else run (record { user = 0; users = none })
    ]

  -- the notification of a change, which `execNotify` builds
  unfoldable pub notify_of : Change B → Notify
  unfolding single_user crowd_data
  notify_of c = record {
    user_id = single_user R c.users;
    crowd = crowd_data R (some c.users);
    from_step = c.from_step;
    to_step = c.to_step;
    to_step_cycle_ttl = c.ttl;
    from_action = find c.from_step w.maps.leave_actions;
    to_action = find c.to_step w.maps.entry_actions;
  }

  -- `completeTransaction`: the notifications to send, the worker, and the next transaction
  unfoldable pub complete_transaction :
      Transaction B → List Notify × StateWorker B X E × Transaction B
  unfolding copy_crowds notify_of start
  complete_transaction tran = elim tran.changes [
    | [] ↦ ([], w, tran)
    | c ∷ cs ↦
        let w' = record w {
          step_crowds = copy_crowds R tran.step_crowds;
          version = (w.version + 1) % u64_mod;
        } in
        (map notify_of (c ∷ cs), w', start R w'.step_crowds)
  ]
