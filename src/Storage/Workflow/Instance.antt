-- ===== src/Storage/Workflow/Instance.antt =====
-- The write handlers of a workflow instance in pkg/storage/cmd_handler_workflow.go, from the
-- request to start it to the note that it has stopped. A workflow's steps are opaque here. `now`
-- is `time.Now().Unix()`, `leader` is `MaybeLeader(shard.ID)`; an event is what a handler sends to
-- `eventC`, at most one. The send is part of the result, not of the run: that it blocks while the
-- channel's 1024 places are taken, and panics once the storage has closed it, is not modelled.
pub mod Lifecycle
pub mod History
pub mod Progress
use busybee.Prelude.{
  ℕ, ◌+◌, ◌%◌, Bool, true, false, Option, none, some, Bytes, is_empty, length, if◌then◌else◌,
}
use busybee.Prelude.Int.{ℤ, pos}
use busybee.Storage.Engine.{DataStorage, M, pure, load, save, stop, ◌>>=◌, ◌>>◌}
use busybee.Storage.Codec.{Codec, decode}
use busybee.Storage.Wire.{u64_mod}
use busybee.Storage.Reply.{Reply, empty, reply, unchanged}

-- `metapb.WorkflowInstanceState`
pub data InstanceState : Type 0 where
  starting running stopping stopped : InstanceState

-- `metapb.Workflow`
pub record Workflow (Steps : Type 0) : Type 0 where
  pub id : ℕ
  pub tenant_id : ℕ
  pub name : Bytes
  pub steps : Steps
  pub stop_at : ℤ

-- `metapb.WorkflowInstance`
pub record WorkflowInstance (Steps : Type 0) : Type 0 where
  pub snapshot : Workflow Steps
  pub instance_id : ℕ
  pub loader_meta : Bytes
  pub loader : ℕ
  pub total_crowd : ℕ
  pub started_at : ℤ
  pub stopped_at : ℤ
  pub version : ℕ
  pub state : InstanceState

pub data Event (Steps : Type 0) : Type 0 where
  starting_instance : WorkflowInstance Steps → Event Steps
  running_instance : WorkflowInstance Steps → Event Steps
  stopping_instance : WorkflowInstance Steps → Event Steps
  stopped_instance : ℕ → Event Steps

abbrev pub Effect : Type 0 → Type 0
Effect Steps = Reply × Option (Event Steps)

-- `return 0, 0, resp` with nothing sent
abbrev pub no_effect : {Steps : Type 0} → Effect Steps
no_effect = (unchanged empty, none)

abbrev pub is_starting : InstanceState → Bool
is_starting InstanceState.starting = true
is_starting _ = false

abbrev pub is_running : InstanceState → Bool
is_running InstanceState.running = true
is_running _ = false

abbrev pub is_stopping : InstanceState → Bool
is_stopping InstanceState.stopping = true
is_stopping _ = false

abbrev pub is_stopped : InstanceState → Bool
is_stopped InstanceState.stopped = true
is_stopped _ = false

module _ {S Steps : Type 0} (D : DataStorage S) (C : Codec (WorkflowInstance Steps))
    (leader : Bool) where
  -- the write at the end of `startingWorkflowInstance`
  unfoldable pub write_starting : Bytes → WorkflowInstance Steps → M S (Effect Steps)
  write_starting key instance = do
    let new = record instance { state = InstanceState.starting }
    let value = C.marshal new
    save D key value
    sent ← if leader then (do i ← decode C value; pure (some (starting_instance i))) else pure none
    let written = length key + length value
    pure (reply written (pos written) empty, sent)

  -- `startingWorkflowInstance`
  unfoldable pub starting_workflow_instance : Bytes → WorkflowInstance Steps → M S (Effect Steps)
  unfolding write_starting
  starting_workflow_instance key instance = do
    value ← load D key
    if is_empty value then write_starting key instance else (do
      old ← decode C value
      if is_stopped old.state then write_starting key instance else pure no_effect)

  -- `updateWorkflowDefinition`
  unfoldable pub update_workflow_definition : Bytes → Workflow Steps → M S (Effect Steps)
  update_workflow_definition key workflow = do
    value ← load D key
    if is_empty value then pure no_effect else (do
      old ← decode C value
      if is_running old.state
          then (do
            save D key (
                C.marshal
                  (record old { snapshot = workflow; version = (old.version + 1) % u64_mod }))
            pure (reply (length key + length value) (pos 0) empty, none))
          else pure no_effect)

  -- `workflowInstanceStarted`
  unfoldable pub workflow_instance_started : ℤ → Bytes → M S (Effect Steps)
  workflow_instance_started now key = do
    value ← load D key
    if is_empty value then stop else (do
      old ← decode C value
      if is_starting old.state
          then (do
            let new = C.marshal (record old { started_at = now; state = InstanceState.running })
            save D key new
            sent ←
                if leader
                then (do i ← decode C new; pure (some (running_instance i)))
                else pure none
            pure (reply (length key + length new) (pos 0) empty, sent))
          else pure no_effect)

  -- `stopWorkflowInstance`
  unfoldable pub stop_workflow_instance : Bytes → M S (Effect Steps)
  stop_workflow_instance key = do
    value ← load D key
    if is_empty value then stop else (do
      old ← decode C value
      if is_running old.state
          then (do
            let new = C.marshal (record old { state = InstanceState.stopping })
            save D key new
            sent ←
                if leader
                then (do i ← decode C new; pure (some (stopping_instance i)))
                else pure none
            pure (reply (length key + length new) (pos 0) empty, sent))
          else pure no_effect)

  -- `workflowInstanceStopped`; its byte count is that of the old value
  unfoldable pub workflow_instance_stopped : ℤ → Bytes → M S (Effect Steps)
  workflow_instance_stopped now key = do
    value ← load D key
    if is_empty value then stop else (do
      old ← decode C value
      if is_stopping old.state
          then (do
            save D key (C.marshal (record old { state = InstanceState.stopped; stopped_at = now }))
            pure (
              reply (length key + length value) (pos 0) empty,
              (if leader then some (stopped_instance old.snapshot.id) else none),
            ))
          else pure no_effect)
