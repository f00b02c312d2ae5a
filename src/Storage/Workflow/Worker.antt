-- ===== src/Storage/Workflow/Worker.antt =====
-- The write handlers of instance workers in pkg/storage/cmd_handler_workflow.go: a runner's record
-- lists its workers, and each worker has a state under a key of its own. The step states of a
-- worker are opaque here.
pub mod Roster
pub mod Fence
use busybee.Prelude.{
  ℕ, ◌+◌, ◌%◌, Bool, true, false, not, Option, none, some, List, [], ◌∷◌, ◌++◌, ◌&&◌, ◌||◌, Bytes,
  is_empty, bytes_equal, length, leb, ltb, ◌==◌, if◌then◌else◌,
}
use busybee.Prelude.Int.{ℤ, pos}
use busybee.Storage.Engine.{
  DataStorage, M, pure, load, save, stop, put, erase, write_batch, unless_panic, in_range, Outcome,
  done, ◌>>=◌, ◌>>◌,
}
use busybee.Storage.Codec.{Codec, decode}
use busybee.Storage.Wire.{Wire, u64_mod}
use busybee.Storage.Keys.{tenant_runner_metadata_key}
use busybee.Storage.Kv.Lock.{allow_lock}
use busybee.Storage.Reply.{Reply, empty, boolean, reply, unchanged}

-- `metapb.WorkerRunnerState`
pub data RunnerState : Type 0 where
  wr_running wr_stopped : RunnerState

-- `metapb.WorkflowWorker`
pub record WorkflowWorker : Type 0 where
  pub workflow_id : ℕ
  pub instance_id : ℕ
  pub index : ℕ

-- `metapb.WorkerRunner`
pub record WorkerRunner : Type 0 where
  pub id : ℕ
  pub index : ℕ
  pub state : RunnerState
  pub workers : List WorkflowWorker
  pub total_crowd : ℕ

-- `metapb.WorkflowInstanceWorkerState`
pub record WorkerState (States : Type 0) : Type 0 where
  pub tenant_id : ℕ
  pub workflow_id : ℕ
  pub instance_id : ℕ
  pub index : ℕ
  pub states : States
  pub version : ℕ
  pub stop_at : ℤ
  pub runner : ℕ

-- `rpcpb.RemoveInstanceStateShardRequest`
pub record RemoveRequest : Type 0 where
  pub tenant_id : ℕ
  pub workflow_id : ℕ
  pub instance_id : ℕ
  pub index : ℕ
  pub runner : ℕ

-- `rpcpb.UpdateInstanceStateShardRequest`
pub record UpdateRequest (States : Type 0) : Type 0 where
  pub state : WorkerState States
  pub lock_key : Bytes
  pub lock_expect_value : Bytes

-- an event carries the state that was created, or the worker that was removed
pub data WorkerEvent (States : Type 0) : Type 0 where
  worker_created : WorkerState States → WorkerEvent States
  worker_destroyed : RemoveRequest → WorkerEvent States

abbrev pub is_wr_stopped : RunnerState → Bool
is_wr_stopped wr_stopped = true
is_wr_stopped wr_running = false

-- the test of the handlers' loops
abbrev pub is_same : WorkflowWorker → WorkflowWorker → Bool
is_same a b =
    a.workflow_id == b.workflow_id && (a.instance_id == b.instance_id && a.index == b.index)

unfoldable pub has_worker : List WorkflowWorker → WorkflowWorker → Bool
has_worker [] w = false
has_worker (x ∷ xs) w = is_same x w || has_worker xs w

-- the loop of `removeInstanceWorker`
unfoldable pub without : List WorkflowWorker → WorkflowWorker → List WorkflowWorker
without [] w = []
without (x ∷ xs) w = let rest = without xs w in if is_same x w then rest else x ∷ rest

abbrev pub worker_of : {States : Type 0} → WorkerState States → WorkflowWorker
worker_of st = record {
  workflow_id = st.workflow_id;
  instance_id = st.instance_id;
  index = st.index;
}

abbrev pub removed_worker : RemoveRequest → WorkflowWorker
removed_worker req = record {
  workflow_id = req.workflow_id;
  instance_id = req.instance_id;
  index = req.index;
}

-- `math.MaxInt64`
abbrev pub max_int64 : ℤ
max_int64 = pos 9223372036854775807

-- `metapb.TenantRunnerGroup`
abbrev pub tenant_runner_group : ℕ
tenant_runner_group = 3

-- a stale or a conflicting version
abbrev pub is_rejected :
    {States : Type 0} → WorkerState States → WorkerState States → Bytes → Bytes → Bool
is_rejected old new value current_value =
    ltb new.version old.version
    || (old.version == new.version && not (bytes_equal value current_value)
        || (not (old.version == new.version) && not ((old.version + 1) % u64_mod == new.version)))

-- `raftstore.EncodeDataKey` is beehive's
unfoldable pub runner_key : Wire → (ℕ → Bytes → Bytes) → ℕ → ℕ → Bytes
runner_key W encode_data_key tid runner =
    encode_data_key tenant_runner_group (tenant_runner_metadata_key W tid runner)

module _ {S States : Type 0} (D : DataStorage S) (W : Wire) (encode_data_key : ℕ → Bytes → Bytes)
    (CR : Codec WorkerRunner) (CS : Codec (WorkerState States)) (leader : Bool) where
  -- `loadWorkerRunnerByGroup`
  unfoldable pub load_worker_runner : Bytes → M S WorkerRunner
  load_worker_runner key = do data' ← load D key; if is_empty data' then stop else decode CR data'

  unfoldable pub create_instance_worker :
      Bytes → WorkerState States → M S (Reply × Option (WorkerEvent States))
  unfolding load_worker_runner has_worker
  create_instance_worker key state = do
    let rkey = runner_key W encode_data_key state.tenant_id state.runner
    runner ← load_worker_runner rkey
    if is_wr_stopped runner.state
        then pure (unchanged (boolean false), none)
        else if has_worker runner.workers (worker_of state)
        then pure (unchanged (boolean true), none)
        else (do
          let value = CS.marshal state
          let grown = record runner { workers = runner.workers ++ (worker_of state ∷ []) }
          write_batch D (put key value ∷ put rkey (CR.marshal grown) ∷ [])
          sent ←
              if leader
              then (do st ← decode CS value; pure (some (worker_created st)))
              else pure none
          pure (unchanged (boolean true), sent))

  unfoldable pub remove_instance_worker :
      Bytes → RemoveRequest → M S (Reply × Option (WorkerEvent States))
  unfolding load_worker_runner without
  remove_instance_worker key req = do
    let rkey = runner_key W encode_data_key req.tenant_id req.runner
    runner ← load_worker_runner rkey
    if is_wr_stopped runner.state then stop else (do
      let new_workers = without runner.workers (removed_worker req)
      if length new_workers == length runner.workers then pure (unchanged empty, none) else (do
        write_batch D
            (erase key ∷ put rkey (CR.marshal (record runner { workers = new_workers })) ∷ [])
        pure (unchanged empty, (if leader then some (worker_destroyed req) else none))))

  -- The engine's error on the lock is dropped, and reads as no lock.
  unfoldable pub load_lock : Bytes → M S Bytes
  load_lock key s = elim (D.get s key) [ none ↦ done ([], s) | some v ↦ done (v, s) ]

  -- The refusal's log lines slice the lock's value.
  unfoldable pub update_instance_worker_state : ℤ → ℕ → Bytes → UpdateRequest States → M S Reply
  unfolding load_lock
  update_instance_worker_state now group key req = do
    lock_value ← load_lock (encode_data_key group req.lock_key)
    allowed ← unless_panic (allow_lock W now lock_value req.lock_expect_value max_int64)
    if not allowed then pure (unchanged (boolean false)) else (do
      value ← load D key
      if is_empty value then pure (unchanged (boolean true)) else (do
        let current_value = CS.marshal req.state
        old ← decode CS value
        if is_rejected old req.state value current_value
            then (do in_range (leb 8 (length lock_value)); pure (unchanged (boolean false)))
            else (do save D key current_value; pure (unchanged (boolean true)))))
