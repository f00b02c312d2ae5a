-- ===== src/Core/Worker/Tests.antt =====
-- A worker of three steps, and what it does with events and with new crowds and workflows.
use busybee.Prelude.{
  Bool, ℕ, zero, suc, ◌≤◌, ◌≡◌, refl, true, false, Option, none, some, List, [], ◌∷◌, Bytes,
  bytes_equal, arith, length,
}
use busybee.Prelude.Int.{pos, ◌-ℤ◌}
use busybee.Util.Roaring.Lists.{lists, sort, insert}
use busybee.Core.Holders.{holders, IsPartition}
use busybee.Core.Steps.{direct_execution, Step, execution, ExecutionType, no_branch, no_execution}
use busybee.Core.Steps.Build.{new_excution}
use busybee.Core.Transaction.{
  Transaction, Acted, acted, panicked, looping, step_changed, follow_directs,
  maybe_trigger_direct_steps, remove_from_step, move_to_step, add_changed, add_to_changes,
}
use busybee.Core.Execution.{execute}
use busybee.Core.Execution.Laws.{LeavesOnly}
use busybee.Core.Worker.{StateWorker, add_step, direct_next, register_step}
use busybee.Core.Worker.Crowds.{
  do_update_crowd, update_crowds, do_update_workflow, register_steps, old_crowds, kept_crowd,
}
use busybee.Core.Worker.Laws.{
  whereabouts, update_crowd_partitions, update_crowd_stays, update_workflow_strands,
}
use busybee.Core.Worker.Handling.{Attempt, do_user_event, execute_until_done, crowd_of}
use busybee.Core.Worker.Handling.Laws.{IsSequential, user_event_keeps}
use busybee.Core.Worker.Ttl.{TriggerInfo, check_step_ttl, maybe_reset, ttl_triggers_once}

-- a step that leads to the next one
abbrev step_to : Bytes → Bytes → Step (Unit {0})
step_to name next = record {
  name = name;
  execution_of = execution ExecutionType.direct none (some next) no_branch no_execution [];
  enter_action = [];
  leave_action = [];
  ttl = pos 60;
}

abbrev a_step : Step (Unit {0})
a_step = step_to (1 ∷ []) (2 ∷ [])

abbrev b_step : Step (Unit {0})
b_step = step_to (2 ∷ []) []

abbrev worker : StateWorker (List ℕ) (Unit {0}) (Unit {0})
worker = record {
  tenant_id = 1;
  workflow_id = 10;
  instance_id = 100;
  index = 0;
  version = 1;
  states = a_step ∷ b_step ∷ [];
  total_crowds = 5 ∷ 6 ∷ 7 ∷ [];
  step_crowds = (5 ∷ 6 ∷ []) ∷ (7 ∷ []) ∷ [];
  maps = record {
    direct_nexts = (1 ∷ [], 2 ∷ []) ∷ [];
    steps =
        (2 ∷ [], direct_execution (2 ∷ []) []) ∷ (1 ∷ [], direct_execution (1 ∷ []) (2 ∷ [])) ∷ [];
    step_indexs = (2 ∷ [], 1) ∷ (1 ∷ [], 0) ∷ [];
    entry_actions = [];
    leave_actions = [];
  };
}

abbrev or_worker :
    Acted (StateWorker (List ℕ) (Unit {0}) (Unit {0})) → StateWorker (List ℕ) (Unit {0}) (Unit {0})
or_worker (acted w) = w
or_worker panicked = worker
or_worker looping = worker

is_partition : IsPartition lists worker.total_crowds worker.step_crowds
unfolding lists
is_partition x = ground arith

update_crowd_partitions_example :
    (w' : StateWorker (List ℕ) (Unit {0}) (Unit {0})) × (do_update_crowd lists (6 ∷ 8 ∷ []) worker
      ≡ acted w')
    × IsPartition lists w'.total_crowds w'.step_crowds
    × ((x : ℕ) → lists.contains w'.total_crowds x ≡ lists.contains (6 ∷ 8 ∷ []) x)
unfolding lists
update_crowd_partitions_example =
    update_crowd_partitions lists (6 ∷ 8 ∷ []) (6 ∷ 8 ∷ []) (5 ∷ 6 ∷ []) ((7 ∷ []) ∷ []) worker refl
      refl is_partition

update_crowd_stays_example :
    whereabouts lists 6 (or_worker (do_update_crowd lists (6 ∷ 8 ∷ []) worker)).step_crowds
    ≡ true ∷ false ∷ []
unfolding do_update_crowd update_crowds lists
update_crowd_stays_example =
    update_crowd_stays lists (6 ∷ 8 ∷ []) (6 ∷ 8 ∷ []) worker
      (or_worker (do_update_crowd lists (6 ∷ 8 ∷ []) worker)) 6 refl refl refl refl

-- the first step is renamed, and its users are in no step
abbrev renamed : List (Step (Unit {0}))
renamed = step_to (3 ∷ []) (2 ∷ []) ∷ b_step ∷ []

abbrev always : Unit {0} → Option (Unit {0})
always x = some x

abbrev updated : StateWorker (List ℕ) (Unit {0}) (Unit {0})
updated = (do_update_workflow lists always (λ cron. true) (λ idx. true) renamed worker).0

abbrev has_5 : List ℕ → Bool
unfolding lists
has_5 crowd = lists.contains crowd 5

update_workflow_strands_example :
    (holders lists 5 updated.step_crowds ≡ 0)
    × (has_5 updated.total_crowds ≡ true)
    × (holders lists 5 (or_worker (do_update_crowd lists (5 ∷ 8 ∷ []) updated)).step_crowds ≡ 0)
    × (has_5 (or_worker (do_update_crowd lists (5 ∷ 8 ∷ []) updated)).total_crowds ≡ true)
unfolding do_update_workflow register_steps register_step add_step direct_next new_excution
    old_crowds kept_crowd lists bytes_equal do_update_crowd
update_workflow_strands_example =
    update_workflow_strands lists always (λ cron. true) (λ idx. true) (1 ∷ []) 5 renamed
      (5 ∷ 8 ∷ []) (5 ∷ 8 ∷ []) worker updated
      (or_worker (do_update_crowd lists (5 ∷ 8 ∷ []) updated)) refl ((λ h. refl), ((λ h. cc), tt))
      (refl, (refl, tt)) refl refl refl refl

abbrev begun : Transaction (List ℕ)
begun = record { step_crowds = worker.step_crowds; changes = [] }

abbrev or_begun : Acted (Transaction (List ℕ)) → Transaction (List ℕ)
or_begun (acted t) = t
or_begun panicked = begun
or_begun looping = begun

abbrev holds : Attempt (List ℕ) (Unit {0})
holds e tran = some (true, none)

is_sequential : IsSequential lists 1 worker
unfolding bytes_equal LeavesOnly
is_sequential zero step e = let same : step ≡ a_step = ground (arith, e) in rw same (refl, refl)
is_sequential (suc zero) step e =
    let same : step ≡ b_step = ground (arith, e) in rw same (refl, refl)
is_sequential (suc (suc n)) step e = absurd (ground (arith, e))

user_event_keeps_example :
    holders lists 5 (or_begun (do_user_event lists 1 worker (holds ∷ []) 5 begun)).step_crowds ≡ 1
unfolding do_user_event execute_until_done crowd_of execute step_changed follow_directs
    maybe_trigger_direct_steps remove_from_step move_to_step add_changed add_to_changes lists
    bytes_equal sort insert
user_event_keeps_example =
    user_event_keeps lists 1 worker (holds ∷ []) 5 begun
      (or_begun (do_user_event lists 1 worker (holds ∷ []) 5 begun)) 5 is_sequential
      ((λ e m bm h. absurd (ground (arith, h))), tt) (ground arith) refl

-- 6 was triggered before
abbrev info : TriggerInfo (List ℕ)
info = record { first_ts = pos 100; already = 6 ∷ [] }

ttl_triggers_once_example :
    let check = check_step_ttl lists (pos 130) (pos 60) (5 ∷ 6 ∷ []) info in
    (true ≡ true)
    × (false ≡ false)
    × (lists.contains check.1.already 6 ≡ true)
    × (length check.0 ≤ 256)
unfolding check_step_ttl maybe_reset lists sort insert ◌-ℤ◌
ttl_triggers_once_example = ttl_triggers_once lists (pos 130) (pos 60) (5 ∷ 6 ∷ []) info 5 6 refl
