-- ===== src/Storage/Codec/Numbers.antt =====
-- A simple encoding of the messages of the workflow handlers, a number to a byte: a concrete codec
-- for examples.
use busybee.Prelude.{
  ℕ, zero, suc, ◌≡◌, refl, Option, none, some, List, [], ◌∷◌, ◌++◌, Bytes, length, take, drop,
  take-append, drop-append,
}
use busybee.Prelude.Int.{ℤ, pos, negsuc}
use busybee.Storage.Codec.{Codec}
use busybee.Storage.Workflow.Instance.{InstanceState, WorkflowInstance}
use busybee.Storage.Workflow.Worker.{
  RunnerState, wr_running, wr_stopped, WorkflowWorker, WorkerRunner, WorkerState,
}

abbrev pub tag_of : ℤ → ℕ
tag_of (pos n) = 0
tag_of (negsuc n) = 1

abbrev pub size_of : ℤ → ℕ
size_of (pos n) = n
size_of (negsuc n) = n

abbrev pub to_ℤ : ℕ → ℕ → ℤ
to_ℤ zero n = pos n
to_ℤ (suc m) n = negsuc n

to_ℤ_lem : (x : ℤ) → to_ℤ (tag_of x) (size_of x) ≡ x
to_ℤ_lem (pos n) = refl
to_ℤ_lem (negsuc n) = refl

abbrev pub number_of : InstanceState → ℕ
number_of InstanceState.starting = 0
number_of InstanceState.running = 1
number_of InstanceState.stopping = 2
number_of InstanceState.stopped = 3

abbrev pub to_state : ℕ → InstanceState
to_state zero = InstanceState.starting
to_state (suc zero) = InstanceState.running
to_state (suc (suc zero)) = InstanceState.stopping
to_state (suc (suc (suc n))) = InstanceState.stopped

to_state_lem : (x : InstanceState) → to_state (number_of x) ≡ x
to_state_lem InstanceState.starting = refl
to_state_lem InstanceState.running = refl
to_state_lem InstanceState.stopping = refl
to_state_lem InstanceState.stopped = refl

abbrev pub Plain : Type 0
Plain = WorkflowInstance (Unit {0})

abbrev pub write_instance : Plain → Bytes
write_instance i =
    i.snapshot.id
    ∷ i.snapshot.tenant_id
    ∷ tag_of i.snapshot.stop_at
    ∷ size_of i.snapshot.stop_at
    ∷ i.instance_id
    ∷ i.loader
    ∷ i.total_crowd
    ∷ tag_of i.started_at
    ∷ size_of i.started_at
    ∷ tag_of i.stopped_at
    ∷ size_of i.stopped_at
    ∷ i.version
    ∷ number_of i.state
    ∷ length i.snapshot.name
    ∷ (i.snapshot.name ++ i.loader_meta)

abbrev pub read_instance : Bytes → Option Plain
read_instance
      (id ∷ tid ∷ a ∷ b ∷ iid ∷ loader ∷ total ∷ c ∷ d ∷ e ∷ f ∷ version ∷ state ∷ n ∷ rest) =
    some record {
      snapshot = record {
        id = id;
        tenant_id = tid;
        name = take n rest;
        steps = tt;
        stop_at = to_ℤ a b;
      };
      instance_id = iid;
      loader_meta = drop n rest;
      loader = loader;
      total_crowd = total;
      started_at = to_ℤ c d;
      stopped_at = to_ℤ e f;
      version = version;
      state = to_state state;
    }
read_instance _ = none

pub read_instance_lem : (i : Plain) → read_instance (write_instance i) ≡ some i
read_instance_lem i =
    rw
      (
        to_ℤ_lem i.snapshot.stop_at,
        to_ℤ_lem i.started_at,
        to_ℤ_lem i.stopped_at,
        to_state_lem i.state,
        take-append (length i.snapshot.name) i.snapshot.name i.loader_meta refl,
        drop-append (length i.snapshot.name) i.snapshot.name i.loader_meta refl,
      )
      refl

abbrev pub write_workers : List WorkflowWorker → Bytes
write_workers [] = []
write_workers (w ∷ ws) = w.workflow_id ∷ w.instance_id ∷ w.index ∷ write_workers ws

abbrev pub read_workers : Bytes → List WorkflowWorker
read_workers (a ∷ b ∷ c ∷ rest) =
    record { workflow_id = a; instance_id = b; index = c } ∷ read_workers rest
read_workers _ = []

read_workers_lem : (ws : List WorkflowWorker) → read_workers (write_workers ws) ≡ ws
read_workers_lem [] = refl
read_workers_lem (w ∷ ws) = rw (read_workers_lem ws) refl

abbrev pub number_of_runner : RunnerState → ℕ
number_of_runner wr_running = 0
number_of_runner wr_stopped = 1

abbrev pub to_runner_state : ℕ → RunnerState
to_runner_state zero = wr_running
to_runner_state (suc n) = wr_stopped

to_runner_state_lem : (x : RunnerState) → to_runner_state (number_of_runner x) ≡ x
to_runner_state_lem wr_running = refl
to_runner_state_lem wr_stopped = refl

abbrev pub write_runner : WorkerRunner → Bytes
write_runner r = r.id ∷ r.index ∷ number_of_runner r.state ∷ r.total_crowd ∷ write_workers r.workers

abbrev pub read_runner : Bytes → Option WorkerRunner
read_runner (a ∷ b ∷ c ∷ d ∷ rest) = some record {
  id = a;
  index = b;
  state = to_runner_state c;
  workers = read_workers rest;
  total_crowd = d;
}
read_runner _ = none

pub read_runner_lem : (r : WorkerRunner) → read_runner (write_runner r) ≡ some r
read_runner_lem r = rw (to_runner_state_lem r.state, read_workers_lem r.workers) refl

abbrev pub PlainWorker : Type 0
PlainWorker = WorkerState (Unit {0})

abbrev pub write_state : PlainWorker → Bytes
write_state x =
    x.tenant_id
    ∷ x.workflow_id
    ∷ x.instance_id
    ∷ x.index
    ∷ x.version
    ∷ tag_of x.stop_at
    ∷ size_of x.stop_at
    ∷ x.runner
    ∷ []

abbrev pub read_state : Bytes → Option PlainWorker
read_state (a ∷ b ∷ c ∷ d ∷ e ∷ f ∷ g ∷ h ∷ []) = some record {
  tenant_id = a;
  workflow_id = b;
  instance_id = c;
  index = d;
  states = tt;
  version = e;
  stop_at = to_ℤ f g;
  runner = h;
}
read_state _ = none

pub read_state_lem : (x : PlainWorker) → read_state (write_state x) ≡ some x
read_state_lem x = rw (to_ℤ_lem x.stop_at) refl

unfoldable pub instance_codec : Codec Plain
instance_codec = record {
  marshal = write_instance;
  unmarshal = read_instance;
  roundtrip = read_instance_lem;
}

unfoldable pub runner_codec : Codec WorkerRunner
runner_codec = record {
  marshal = write_runner;
  unmarshal = read_runner;
  roundtrip = read_runner_lem;
}

unfoldable pub state_codec : Codec PlainWorker
state_codec = record { marshal = write_state; unmarshal = read_state; roundtrip = read_state_lem }
