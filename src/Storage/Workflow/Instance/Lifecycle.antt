-- ===== src/Storage/Workflow/Instance/Lifecycle.antt =====
-- The life of a workflow instance as a graph, and the write handlers of
-- pkg/storage/cmd_handler_workflow.go as steps along it.
use busybee.Prelude.{
  ◌+◌, ◌%◌, ◌≡◌, ◌⊎◌, inl, inr, Bool, Option, none, some, [], Bytes, arith, Bool-cases,
  if◌then◌else◌,
}
use busybee.Prelude.Int.{ℤ}
use busybee.Storage.Engine.{DataStorage, M, done}
use busybee.Storage.Codec.{Codec, HasField}
use busybee.Storage.Wire.{u64_mod}
use busybee.Storage.Workflow.Instance.{
  InstanceState, is_starting, is_running, is_stopping, is_stopped, Workflow, WorkflowInstance,
  Event, starting_instance, running_instance, stopping_instance, stopped_instance, Effect,
  starting_workflow_instance, update_workflow_definition, workflow_instance_started,
  stop_workflow_instance, workflow_instance_stopped,
}

pub data Command (Steps : Type 0) : Type 0 where
  start : WorkflowInstance Steps → Command Steps
  update : Workflow Steps → Command Steps
  mark_started : ℤ → Command Steps
  stop : Command Steps
  mark_stopped : ℤ → Command Steps

abbrev pub as_starting : {Steps : Type 0} → WorkflowInstance Steps → WorkflowInstance Steps
as_starting i = record i { state = InstanceState.starting }

abbrev pub as_changed :
    {Steps : Type 0} → WorkflowInstance Steps → Workflow Steps → WorkflowInstance Steps
as_changed i w = record i { snapshot = w; version = (i.version + 1) % u64_mod }

abbrev pub as_running : {Steps : Type 0} → WorkflowInstance Steps → ℤ → WorkflowInstance Steps
as_running i now = record i { started_at = now; state = InstanceState.running }

abbrev pub as_stopping : {Steps : Type 0} → WorkflowInstance Steps → WorkflowInstance Steps
as_stopping i = record i { state = InstanceState.stopping }

abbrev pub as_stopped : {Steps : Type 0} → WorkflowInstance Steps → ℤ → WorkflowInstance Steps
as_stopped i now = record i { state = InstanceState.stopped; stopped_at = now }

-- only the shard's leader sends events
abbrev pub sent_by : {Steps : Type 0} → Bool → Event Steps → Option (Event Steps)
sent_by leader e = if leader then some e else none

-- `Step leader command old new event`: the instance of a key, if any, before and after a command,
-- and what is sent.
pub data Step {Steps : Type 0} (leader : Bool)
    : Command Steps
      → Option (WorkflowInstance Steps)
      → Option (WorkflowInstance Steps)
      → Option (Event Steps)
      → Type 0 where
  begin :
      (i : WorkflowInstance Steps)
      → Step leader
          (start i)
          none
          (some (as_starting i))
          (sent_by leader (starting_instance (as_starting i)))
  again :
      (old i : WorkflowInstance Steps)
      → old.state ≡ InstanceState.stopped
      → Step leader
          (start i)
          (some old)
          (some (as_starting i))
          (sent_by leader (starting_instance (as_starting i)))
  change :
      (old : WorkflowInstance Steps) (w : Workflow Steps)
      → old.state ≡ InstanceState.running
      → Step leader (update w) (some old) (some (as_changed old w)) none
  run :
      (old : WorkflowInstance Steps) (now : ℤ)
      → old.state ≡ InstanceState.starting
      → Step leader
          (mark_started now)
          (some old)
          (some (as_running old now))
          (sent_by leader (running_instance (as_running old now)))
  halt :
      (old : WorkflowInstance Steps)
      → old.state ≡ InstanceState.running
      → Step leader stop
          (some old)
          (some (as_stopping old))
          (sent_by leader (stopping_instance (as_stopping old)))
  end :
      (old : WorkflowInstance Steps) (now : ℤ)
      → old.state ≡ InstanceState.stopping
      → Step leader
          (mark_stopped now)
          (some old)
          (some (as_stopped old now))
          (sent_by leader (stopped_instance old.snapshot.id))

module _ {S Steps : Type 0} (D : DataStorage S) (C : Codec (WorkflowInstance Steps))
    (leader : Bool) where
  unfoldable pub apply : Bytes → Command Steps → M S (Effect Steps)
  apply key (start i) = starting_workflow_instance D C leader key i
  apply key (update w) = update_workflow_definition D C leader key w
  apply key (mark_started now) = workflow_instance_started D C leader now key
  apply key stop = stop_workflow_instance D C leader key
  apply key (mark_stopped now) = workflow_instance_stopped D C leader now key

  abbrev pub bytes_of : Option (WorkflowInstance Steps) → Bytes
  bytes_of none = []
  bytes_of (some i) = C.marshal i

  -- the store holds this instance under the key
  abbrev pub Stores : S → Bytes → Option (WorkflowInstance Steps) → Type 0
  Stores s key o = D.get s key ≡ some (bytes_of o)

  -- A command on a key either changes nothing and sends nothing, or takes one step.
  abbrev pub Moves :
      S → Bytes → Command Steps → Option (WorkflowInstance Steps) → Effect Steps → Type 0
  Moves t key c o e =
      (Stores t key o × (e.1 ≡ none))
      ⊎ ((o' : Option (WorkflowInstance Steps)) × Stores t key o' × Step leader c o o' e.1)

  moved :
      (t : S) (key : Bytes) (c : Command Steps) (o : Option (WorkflowInstance Steps))
      (new : WorkflowInstance Steps) (e : Effect Steps) (ev : Option (Event Steps))
      → Step leader c o (some new) ev
      → Stores t key (some new)
      → e.1 ≡ ev
      → Moves t key c o e
  moved t key c o new e ev st g x = inr (some new, g, rw x st)

  start-Moves :
      (key : Bytes) (i : WorkflowInstance Steps) (o : Option (WorkflowInstance Steps)) (s t : S)
      (e : Effect Steps)
      → HasField C
      → Stores s key o
      → starting_workflow_instance D C leader key i s ≡ done (e, t)
      → Moves t key (start i) o e
  unfolding starting_workflow_instance
  start-Moves key i none s t e h g x =
      let new = as_starting i in
      moved t key (start i) none new e (sent_by leader (starting_instance new)) (begin i)
        (ground (arith, D.get-set_self s t key (C.marshal new), C.roundtrip new))
        (ground (arith, C.roundtrip new))
  start-Moves key i (some old) s t e h g x =
      let new = as_starting i in
      elim (Bool-cases (is_stopped old.state)) [
        | inl y ↦
            moved t key (start i) (some old) new e (sent_by leader (starting_instance new))
              (again old i (ground arith))
              (ground (
                arith,
                h old,
                C.roundtrip old,
                D.get-set_self s t key (C.marshal new),
                C.roundtrip new,
              ))
              (ground (arith, h old, C.roundtrip old, C.roundtrip new))
        | inr n ↦
            inl (ground (arith, h old, C.roundtrip old), ground (arith, h old, C.roundtrip old))
      ]

  update-Moves :
      (key : Bytes) (w : Workflow Steps) (o : Option (WorkflowInstance Steps)) (s t : S)
      (e : Effect Steps)
      → HasField C
      → Stores s key o
      → update_workflow_definition D C leader key w s ≡ done (e, t)
      → Moves t key (update w) o e
  unfolding update_workflow_definition
  update-Moves key w none s t e h g x = inl (ground arith, ground arith)
  update-Moves key w (some old) s t e h g x =
      let new = as_changed old w in
      elim (Bool-cases (is_running old.state)) [
        | inl y ↦
            moved t key (update w) (some old) new e none (change old w (ground arith))
              (ground (
                arith,
                h old,
                C.roundtrip old,
                D.get-set_self s t key (C.marshal new),
                C.roundtrip new,
              ))
              (ground (arith, h old, C.roundtrip old, C.roundtrip new))
        | inr n ↦
            inl (ground (arith, h old, C.roundtrip old), ground (arith, h old, C.roundtrip old))
      ]

  mark_started-Moves :
      (key : Bytes) (now : ℤ) (o : Option (WorkflowInstance Steps)) (s t : S) (e : Effect Steps)
      → HasField C
      → Stores s key o
      → workflow_instance_started D C leader now key s ≡ done (e, t)
      → Moves t key (mark_started now) o e
  unfolding workflow_instance_started
  mark_started-Moves key now none s t e h g x = absurd (ground arith)
  mark_started-Moves key now (some old) s t e h g x =
      let new = as_running old now in
      elim (Bool-cases (is_starting old.state)) [
        | inl y ↦
            moved t key (mark_started now) (some old) new e (sent_by leader (running_instance new))
              (run old now (ground arith))
              (ground (
                arith,
                h old,
                C.roundtrip old,
                D.get-set_self s t key (C.marshal new),
                C.roundtrip new,
              ))
              (ground (arith, h old, C.roundtrip old, C.roundtrip new))
        | inr n ↦
            inl (ground (arith, h old, C.roundtrip old), ground (arith, h old, C.roundtrip old))
      ]

  stop-Moves :
      (key : Bytes) (o : Option (WorkflowInstance Steps)) (s t : S) (e : Effect Steps)
      → HasField C
      → Stores s key o
      → stop_workflow_instance D C leader key s ≡ done (e, t)
      → Moves t key stop o e
  unfolding stop_workflow_instance
  stop-Moves key none s t e h g x = absurd (ground arith)
  stop-Moves key (some old) s t e h g x =
      let new = as_stopping old in
      elim (Bool-cases (is_running old.state)) [
        | inl y ↦
            moved t key stop (some old) new e (sent_by leader (stopping_instance new))
              (halt old (ground arith))
              (ground (
                arith,
                h old,
                C.roundtrip old,
                D.get-set_self s t key (C.marshal new),
                C.roundtrip new,
              ))
              (ground (arith, h old, C.roundtrip old, C.roundtrip new))
        | inr n ↦
            inl (ground (arith, h old, C.roundtrip old), ground (arith, h old, C.roundtrip old))
      ]

  mark_stopped-Moves :
      (key : Bytes) (now : ℤ) (o : Option (WorkflowInstance Steps)) (s t : S) (e : Effect Steps)
      → HasField C
      → Stores s key o
      → workflow_instance_stopped D C leader now key s ≡ done (e, t)
      → Moves t key (mark_stopped now) o e
  unfolding workflow_instance_stopped
  mark_stopped-Moves key now none s t e h g x = absurd (ground arith)
  mark_stopped-Moves key now (some old) s t e h g x =
      let new = as_stopped old now in
      elim (Bool-cases (is_stopping old.state)) [
        | inl y ↦
            moved t key (mark_stopped now) (some old) new e
              (sent_by leader (stopped_instance old.snapshot.id)) (end old now (ground arith))
              (ground (
                arith,
                h old,
                C.roundtrip old,
                D.get-set_self s t key (C.marshal new),
                C.roundtrip new,
              ))
              (ground (arith, h old, C.roundtrip old, C.roundtrip new))
        | inr n ↦
            inl (ground (arith, h old, C.roundtrip old), ground (arith, h old, C.roundtrip old))
      ]

  -- A command on a key that returns (where no instance is encoded as the empty value) either leaves
  -- the key's instance, or its absence, as it was and sends nothing, or takes one step of the life
  -- cycle and sends, on the leader, that step's event.
  pub apply-Moves :
      (key : Bytes) (c : Command Steps) (o : Option (WorkflowInstance Steps)) (s t : S)
      (e : Effect Steps)
      → HasField C
      → Stores s key o
      → apply key c s ≡ done (e, t)
      → Moves t key c o e
  unfolding apply
  apply-Moves key (start i) = start-Moves key i
  apply-Moves key (update w) = update-Moves key w
  apply-Moves key (mark_started now) = mark_started-Moves key now
  apply-Moves key stop = stop-Moves key
  apply-Moves key (mark_stopped now) = mark_stopped-Moves key now
