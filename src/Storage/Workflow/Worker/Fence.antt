-- ===== src/Storage/Workflow/Worker/Fence.antt =====
-- `updateInstanceWorkerState` of pkg/storage/cmd_handler_workflow.go: what the lock and the version
-- of a worker's state guard.
use busybee.Prelude.{
  ℕ, ◌+◌, ◌%◌, ◌≡◌, ◌≢◌, ◌⊎◌, Bool, true, false, some, [], Bytes, is_empty, bytes_equal→eq, arith,
}
use busybee.Prelude.Int.{ℤ, ltb_ℤ}
use busybee.Storage.Engine.{DataStorage, done, fatal}
use busybee.Storage.Codec.{Codec}
use busybee.Storage.Wire.{Wire, IsInt64, u64_mod}
use busybee.Storage.Reply.{Reply, boolean, unchanged}
use busybee.Storage.Kv.Lock.{LockRequest, allow_lock}
use busybee.Storage.Kv.Lock.Lease.{held, encode, allow_lock-encode}
use busybee.Storage.Workflow.Worker.{
  WorkerRunner, WorkerState, UpdateRequest, max_int64, is_rejected, update_instance_worker_state,
}

module _ {S States : Type 0} (D : DataStorage S) (W : Wire) (encode_data_key : ℕ → Bytes → Bytes)
    (CR : Codec WorkerRunner) (CS : Codec (WorkerState States)) (leader : Bool) where
  -- the request as the lock's rule reads it: the caller's value, and the latest expiry
  abbrev pub claim : UpdateRequest States → LockRequest
  claim req = record { key = req.lock_key; value = req.lock_expect_value; expire_at = max_int64 }

  -- While a lease on the lock lasts (its end fits `int64`), an update by anyone but its holder is
  -- refused and changes nothing.
  pub update_fenced :
      (now e : ℤ) (holder : Bytes) (group : ℕ) (key : Bytes) (req : UpdateRequest States) (s : S)
      → IsInt64 e
      → ltb_ℤ now e ≡ true
      → req.lock_expect_value ≢ holder
      → D.get s (encode_data_key group req.lock_key) ≡ some (encode W (held e holder))
      → update_instance_worker_state D W encode_data_key CR CS leader now group key req s
        ≡ done (unchanged (boolean false), s)
  unfolding update_instance_worker_state
  update_fenced now e holder group key req s h early other g = ground (
    arith,
    allow_lock-encode W now (held e holder) (claim req) h,
    bytes_equal→eq req.lock_expect_value holder,
  )

  -- An update of a stored state that returns leaves that state as it was, or puts the request's state
  -- in its place, whose version is then the next one; an answer of false always means the former.
  pub update_advances :
      (now : ℤ) (group : ℕ) (key : Bytes) (req : UpdateRequest States) (old : WorkerState States)
      (s t : S) (r : Reply)
      → is_empty (CS.marshal old) ≡ false
      → D.get s key ≡ some (CS.marshal old)
      → update_instance_worker_state D W encode_data_key CR CS leader now group key req s
        ≡ done (r, t)
      → (D.get t key ≡ some (CS.marshal old))
        ⊎ ((r.response ≡ boolean true)
            × (D.get t key ≡ some (CS.marshal req.state))
            × (req.state.version ≡ (old.version + 1) % u64_mod))
  unfolding update_instance_worker_state
  update_advances now group key req old s t r h g x = ground (
    arith,
    CS.roundtrip old,
    D.get-set_self s t key (CS.marshal req.state),
    bytes_equal→eq (CS.marshal old) (CS.marshal req.state),
  )

  -- A stored state's update whose version is rejected, while no lock is stored, ends the process:
  -- the refusal's log line slices the missing lock.
  pub update_panics :
      (now : ℤ) (group : ℕ) (key : Bytes) (req : UpdateRequest States) (old : WorkerState States)
      (s : S)
      → is_empty (CS.marshal old) ≡ false
      → D.get s key ≡ some (CS.marshal old)
      → D.get s (encode_data_key group req.lock_key) ≡ some []
      → is_rejected old req.state (CS.marshal old) (CS.marshal req.state) ≡ true
      → update_instance_worker_state D W encode_data_key CR CS leader now group key req s ≡ fatal
  unfolding update_instance_worker_state allow_lock
  update_panics now group key req old s h g l v = ground (arith, CS.roundtrip old)
