-- ===== src/Storage/Workflow/Worker/Roster.antt =====
-- The workers of a runner as a set: what `createInstanceWorker` and `removeInstanceWorker` of
-- pkg/storage/cmd_handler_workflow.go do to it, and to the states of the workers.
use busybee.Prelude.{
  ℕ, ◌≤◌, ◌≡◌, ◌≢◌, refl, Bool, true, false, not, Option, none, some, List, [], ◌∷◌, ◌++◌, ◌&&◌,
  ◌||◌, Bytes, is_empty, bytes_equal_self, bytes_equal→eq, length, ◌==◌, if◌then◌else◌, arith,
  Bool-cases, inl, inr,
}
use busybee.Storage.Engine.{DataStorage, done, put, erase}
use busybee.Storage.Codec.{Codec}
use busybee.Storage.Wire.{Wire}
use busybee.Storage.Reply.{Reply, boolean}
use busybee.Storage.Workflow.Worker.{
  WorkflowWorker, WorkerRunner, WorkerState, RemoveRequest, WorkerEvent, worker_destroyed,
  is_wr_stopped, is_same, has_worker, without, worker_of, removed_worker, runner_key,
  create_instance_worker, remove_instance_worker,
}

-- no worker is listed twice
abbrev pub IsDistinct : List WorkflowWorker → Type 0
IsDistinct [] = Unit
IsDistinct (x ∷ xs) = (has_worker xs x ≡ false) × IsDistinct xs

has_worker-append :
    (xs : List WorkflowWorker) (w x : WorkflowWorker)
    → has_worker (xs ++ (w ∷ [])) x ≡ has_worker xs x || is_same w x
unfolding has_worker
has_worker-append [] w x = ground arith
has_worker-append (y ∷ xs) w x = ground (arith, has_worker-append xs w x)

append-IsDistinct :
    (xs : List WorkflowWorker) (w : WorkflowWorker)
    → IsDistinct xs
    → has_worker xs w ≡ false
    → IsDistinct (xs ++ (w ∷ []))
unfolding has_worker
append-IsDistinct [] w d h = (refl, tt)
append-IsDistinct (y ∷ xs) w d h =
    (ground (arith, has_worker-append xs w y, d.0), append-IsDistinct xs w d.1 (ground arith))

has_worker-without :
    (xs : List WorkflowWorker) (w x : WorkflowWorker)
    → has_worker (without xs w) x ≡ has_worker xs x && not (is_same w x)
unfolding has_worker without
has_worker-without [] w x = refl
has_worker-without (y ∷ xs) w x = ground (arith, has_worker-without xs w x)

without-IsDistinct :
    (xs : List WorkflowWorker) (w : WorkflowWorker) → IsDistinct xs → IsDistinct (without xs w)
unfolding without
without-IsDistinct [] w d = tt
without-IsDistinct (y ∷ xs) w d =
    ground (arith, has_worker-without xs w y, without-IsDistinct xs w d.1)

length-without : (xs : List WorkflowWorker) (w : WorkflowWorker) → length (without xs w) ≤ length xs
unfolding without
length-without [] w = omega arith
length-without (y ∷ xs) w = ground (arith, length-without xs w)

-- the test by lengths finds out whether the worker was there
length-without_test :
    (xs : List WorkflowWorker) (w : WorkflowWorker)
    → (length (without xs w) == length xs) ≡ not (has_worker xs w)
unfolding without has_worker
length-without_test [] w = refl
length-without_test (y ∷ xs) w = ground (arith, length-without_test xs w, length-without xs w)

without_absent :
    (xs : List WorkflowWorker) (w : WorkflowWorker) → has_worker xs w ≡ false → without xs w ≡ xs
unfolding without has_worker
without_absent [] w h = refl
without_absent (y ∷ xs) w h = ground (arith, without_absent xs w)

has_worker-same :
    (xs : List WorkflowWorker) (w y : WorkflowWorker)
    → has_worker xs w ≡ true
    → is_same w y ≡ true
    → has_worker xs y ≡ true
unfolding has_worker
has_worker-same [] w y h e = cc
has_worker-same (x ∷ xs) w y h e = ground (arith, has_worker-same xs w y)

has_worker-differs :
    (xs : List WorkflowWorker) (w y : WorkflowWorker)
    → has_worker xs w ≡ false
    → has_worker xs y ≡ has_worker xs y && not (is_same w y)
unfolding has_worker
has_worker-differs [] w y h = refl
has_worker-differs (x ∷ xs) w y h = ground (arith, has_worker-differs xs w y)

module _ {S States : Type 0} (D : DataStorage S) (W : Wire) (encode_data_key : ℕ → Bytes → Bytes)
    (CR : Codec WorkerRunner) (CS : Codec (WorkerState States)) (leader : Bool) where
  -- what a request did to the roster: the runner's record after it
  pub record Roster (t : S) (rkey : Bytes) (old : WorkerRunner) (expect : WorkflowWorker → Bool)
      : Type 0 where
    pub now : WorkerRunner
    pub held : D.get t rkey ≡ some (CR.marshal now)
    pub same_state : now.state ≡ old.state
    pub members : (x : WorkflowWorker) → has_worker now.workers x ≡ expect x
    pub distinct : IsDistinct now.workers

  -- For a stored runner that lists no worker twice, and a state with a key of its own, a request to
  -- create a worker that returns answers whether the runner runs. If so the worker is in the
  -- runner's list afterwards, and its state is written unless it was there already; if not, both
  -- are as before. Nobody else joins or leaves the list, and no worker is in it twice.
  pub create_adds :
      (key : Bytes) (state : WorkerState States) (old : WorkerRunner) (s t : S)
      (r : Reply × Option (WorkerEvent States))
      → let rkey = runner_key W encode_data_key state.tenant_id state.runner in
        let runs = not (is_wr_stopped old.state) in
        is_empty (CR.marshal old) ≡ false
        → IsDistinct old.workers
        → key ≢ rkey
        → D.get s rkey ≡ some (CR.marshal old)
        → create_instance_worker D W encode_data_key CR CS leader key state s ≡ done (r, t)
        → (r.0.response ≡ boolean runs)
          × Roster t rkey old
              (λ x. has_worker old.workers x || (runs && is_same (worker_of state) x))
          × (D.get t key ≡ (
              if runs && not (has_worker old.workers (worker_of state))
              then some (CS.marshal state)
              else D.get s key))
  unfolding create_instance_worker
  create_adds key state old s t r h d ne g x =
      let rkey = runner_key W encode_data_key state.tenant_id state.runner in
      let w = worker_of state in
      let grown : WorkerRunner = record old { workers = old.workers ++ (w ∷ []) } in
      let ops = put key (CS.marshal state) ∷ put rkey (CR.marshal grown) ∷ [] in
      elim (Bool-cases (is_wr_stopped old.state)) [
        | inl stopped ↦ (
          ground (arith, h, CR.roundtrip old),
          record {
            now = old;
            held = ground (arith, h, CR.roundtrip old);
            same_state = refl;
            members = λ y. ground arith;
            distinct = d;
          },
          ground (arith, h, CR.roundtrip old),
        )
        | inr runs ↦ elim (Bool-cases (has_worker old.workers w)) [
          | inl there ↦ (
            ground (arith, h, CR.roundtrip old),
            record {
              now = old;
              held = ground (arith, h, CR.roundtrip old);
              same_state = refl;
              members = λ y. rw runs (ground (arith, has_worker-same old.workers w y there));
              distinct = d;
            },
            ground (arith, h, CR.roundtrip old),
          )
          | inr new ↦ (
            ground (arith, h, CR.roundtrip old, CS.roundtrip state),
            record {
              now = grown;
              held = ground (
                arith,
                h,
                CR.roundtrip old,
                CS.roundtrip state,
                D.get-write s t ops rkey,
                bytes_equal_self rkey,
              );
              same_state = refl;
              members = λ y. rw runs (has_worker-append old.workers w y);
              distinct = append-IsDistinct old.workers w d new;
            },
            ground (
              arith,
              h,
              CR.roundtrip old,
              CS.roundtrip state,
              D.get-write s t ops key,
              bytes_equal_self key,
              bytes_equal→eq rkey key,
            ),
          )
        ]
      ]

  -- For a stored runner that lists no worker twice, and a state with a key of its own, a request to
  -- remove a worker that returns takes it, if it is there, out of the runner's list, deletes its
  -- state and sends, on the leader, one event; if it is not there, the list and the state are as
  -- before and no event is sent.
  pub remove_takes :
      (key : Bytes) (req : RemoveRequest) (old : WorkerRunner) (s t : S)
      (r : Reply × Option (WorkerEvent States))
      → let rkey = runner_key W encode_data_key req.tenant_id req.runner in
        let there = has_worker old.workers (removed_worker req) in
        is_empty (CR.marshal old) ≡ false
        → IsDistinct old.workers
        → key ≢ rkey
        → D.get s rkey ≡ some (CR.marshal old)
        → remove_instance_worker D W encode_data_key CR CS leader key req s ≡ done (r, t)
        → Roster t rkey old (λ x. has_worker old.workers x && not (is_same (removed_worker req) x))
          × (D.get t key ≡ (if there then some [] else D.get s key))
          × (r.1 ≡ (if there && leader then some (worker_destroyed req) else none))
  unfolding remove_instance_worker
  remove_takes key req old s t r h d ne g x =
      let rkey = runner_key W encode_data_key req.tenant_id req.runner in
      let w = removed_worker req in
      let shrunk : WorkerRunner = record old { workers = without old.workers w } in
      let ops = erase key ∷ put rkey (CR.marshal shrunk) ∷ [] in
      let test = length-without_test old.workers w in
      elim (Bool-cases (has_worker old.workers w)) [
        | inl there ↦ (
          record {
            now = shrunk;
            held =
                ground (
                  arith,
                  h,
                  test,
                  CR.roundtrip old,
                  D.get-write s t ops rkey,
                  bytes_equal_self rkey,
                );
            same_state = refl;
            members = λ y. has_worker-without old.workers w y;
            distinct = without-IsDistinct old.workers w d;
          },
          ground (
            arith,
            h,
            test,
            CR.roundtrip old,
            D.get-write s t ops key,
            bytes_equal_self key,
            bytes_equal→eq rkey key,
          ),
          ground (arith, h, test, CR.roundtrip old),
        )
        | inr absent ↦ (
          record {
            now = old;
            held = ground (arith, h, test, CR.roundtrip old);
            same_state = refl;
            members = λ y. has_worker-differs old.workers w y absent;
            distinct = d;
          },
          ground (arith, h, test, CR.roundtrip old),
          ground (arith, h, test, CR.roundtrip old),
        )
      ]
