-- ===== src/Storage/Workflow/Tests.antt =====
-- Runs of the workflow handlers on a store in memory.
use busybee.Prelude.{
  ℕ, ◌≡◌, ◌≢◌, ◌⊎◌, refl, true, false, some, List, [], ◌∷◌, Bytes, bytes_equal, map, arith,
  is_empty, ◌+◌, ◌%◌,
}
use busybee.Prelude.Int.{pos}
use busybee.Storage.Engine.{done, each}
use busybee.Storage.Engine.Memory.{Memory, memory, nothing, put_in, written}
use busybee.Storage.Engine.{put, erase}
use busybee.Storage.Wire.{u64_mod}
use busybee.Storage.Wire.BigEndian.{big_endian}
use busybee.Storage.Reply.{boolean, empty, reply, unchanged}
use busybee.Storage.Codec.Numbers.{
  Plain, PlainWorker, instance_codec, runner_codec, state_codec, write_instance, write_runner,
  write_state,
}
use busybee.Storage.Kv.Lock.{allow_lock}
use busybee.Storage.Kv.Lock.Lease.{held, encode}
use busybee.Storage.Workflow.Instance.{
  InstanceState, stopping_instance, starting_workflow_instance, workflow_instance_started,
  stop_workflow_instance, workflow_instance_stopped,
}
use busybee.Storage.Workflow.Instance.Lifecycle.{
  Command, start, mark_started, stop, mark_stopped, as_starting, as_running, as_stopping,
  as_stopped, apply, Moves, apply-Moves,
}
use busybee.Storage.Workflow.Instance.History.{
  IsPartOf, kind, start_kind, started_kind, stop_kind, stopped_kind, stopped_needs_all,
}
use busybee.Storage.Workflow.Worker.{
  wr_running, WorkflowWorker, WorkerRunner, load_lock, UpdateRequest, RemoveRequest, worker_of,
  runner_key, update_instance_worker_state,
}
use busybee.Storage.Workflow.Worker.Fence.{update_fenced, update_advances}
use busybee.Storage.Keys.{tenant_runner_metadata_key}

abbrev ikey : Bytes
ikey = 1 ∷ []

abbrev an_instance : InstanceState → Plain
an_instance state = record {
  snapshot = record { id = 7; tenant_id = 1; name = 65 ∷ []; steps = tt; stop_at = pos 0 };
  instance_id = 8;
  loader_meta = [];
  loader = 0;
  total_crowd = 0;
  started_at = pos 0;
  stopped_at = pos 0;
  version = 0;
  state = state;
}

abbrev running : Plain
running = an_instance InstanceState.running

write_instance-full : (i : Plain) → is_empty (instance_codec.marshal i) ≡ false
unfolding instance_codec
write_instance-full i = refl

apply-Moves_example :
    Moves memory instance_codec true
      (put_in nothing ikey (write_instance (as_stopping running)))
      ikey
      stop
      (some running)
      (reply 16 (pos 0) empty, some (stopping_instance (as_stopping running)))
unfolding apply stop_workflow_instance memory instance_codec bytes_equal
apply-Moves_example =
    apply-Moves memory instance_codec true ikey stop (some running)
      (put_in nothing ikey (write_instance running))
      (put_in (put_in nothing ikey (write_instance running)) ikey
        (write_instance (as_stopping running)))
      (reply 16 (pos 0) empty, some (stopping_instance (as_stopping running))) write_instance-full
      refl refl

abbrev life : List (Command (Unit {0}))
life = start running ∷ mark_started (pos 10) ∷ stop ∷ mark_stopped (pos 20) ∷ []

abbrev started : Plain
started = as_running (as_starting running) (pos 10)

abbrev ended : Plain
ended = as_stopped (as_stopping started) (pos 20)

stopped_needs_all_example :
    IsPartOf (start_kind ∷ started_kind ∷ stop_kind ∷ stopped_kind ∷ []) (map kind life)
unfolding each apply starting_workflow_instance workflow_instance_started stop_workflow_instance
    workflow_instance_stopped memory instance_codec bytes_equal
stopped_needs_all_example =
    stopped_needs_all memory instance_codec false ikey life ended nothing _ _ write_instance-full
      refl refl refl refl

-- the engine's prefix of a group's keys
abbrev with_group : ℕ → Bytes → Bytes
with_group group key = group ∷ key

abbrev wkey : Bytes
wkey = 2 ∷ []

abbrev a_state : ℕ → PlainWorker
a_state version = record {
  tenant_id = 1;
  workflow_id = 7;
  instance_id = 8;
  index = 0;
  states = tt;
  version = version;
  stop_at = pos 0;
  runner = 5;
}

abbrev a_runner : List WorkflowWorker → WorkerRunner
a_runner ws = record { id = 5; index = 0; state = wr_running; workers = ws; total_crowd = 0 }

abbrev rkey : Bytes
rkey = runner_key big_endian with_group 1 5

abbrev with_runner : List WorkflowWorker → Memory
with_runner ws = put_in nothing rkey (write_runner (a_runner ws))

abbrev created : Memory
created = written (with_runner []) (
    put wkey (write_state (a_state 0))
    ∷ put rkey (write_runner (a_runner (worker_of (a_state 0) ∷ [])))
    ∷ [])

wkey-rkey : wkey ≢ rkey
unfolding runner_key tenant_runner_metadata_key big_endian
wkey-rkey e = ground arith

abbrev the_worker : WorkflowWorker
the_worker = worker_of (a_state 0)

abbrev removal : RemoveRequest
removal = record { tenant_id = 1; workflow_id = 7; instance_id = 8; index = 0; runner = 5 }

abbrev removed : Memory
removed =
    written (with_runner (the_worker ∷ []))
      (erase wkey ∷ put rkey (write_runner (a_runner [])) ∷ [])

abbrev lkey : Bytes
lkey = 4 ∷ []

abbrev alice : Bytes
alice = 10 ∷ []

abbrev bob : Bytes
bob = 20 ∷ []

abbrev update_by : Bytes → ℕ → UpdateRequest (Unit {0})
update_by who version = record { state = a_state version; lock_key = lkey; lock_expect_value = who }

abbrev with_state : Memory
with_state = put_in nothing wkey (write_state (a_state 0))

abbrev locked : Memory
locked = put_in with_state (with_group 3 lkey) (encode big_endian (held (pos 100) alice))

update_fenced_example :
    update_instance_worker_state memory big_endian with_group runner_codec state_codec true
      (pos 50)
      3
      wkey
      (update_by bob 1)
      locked
    ≡ done (unchanged (boolean false), locked)
unfolding memory big_endian bytes_equal
update_fenced_example =
    update_fenced memory big_endian with_group runner_codec state_codec true (pos 50) (pos 100)
      alice 3 wkey (update_by bob 1) locked (ground arith) refl (λ e. ground arith) refl

abbrev updated : Memory
updated = put_in locked wkey (write_state (a_state 1))

update_advances_example :
    (some (updated wkey) ≡ some (write_state (a_state 0)))
    ⊎ ((boolean true ≡ boolean true)
        × (some (updated wkey) ≡ some (write_state (a_state 1)))
        × ((a_state 1).version ≡ (0 + 1) % u64_mod))
unfolding update_instance_worker_state load_lock allow_lock memory runner_codec state_codec
    big_endian bytes_equal
update_advances_example =
    update_advances memory big_endian with_group runner_codec state_codec true (pos 50) 3 wkey
      (update_by alice 1) (a_state 0) locked updated (unchanged (boolean true)) refl refl refl
