-- ===== src/Storage/Kv/Lock/Progress.antt =====
-- When `lock` and `unlock` of pkg/storage/cmd_handler_kv.go return.
use busybee.Prelude.{◌≡◌, ◌≢◌, ◌≤◌, some, Bytes, length, arith}
use busybee.Storage.Engine.{DataStorage, IsWorking, fatal}
use busybee.Storage.Wire.{Wire}
use busybee.Storage.Kv.Lock.{lock, unlock}
use busybee.Storage.Kv.Lock.Lease.{
  Lease, held, IsInRange, encode, allow_lock-encode, may_unlock-encode,
}
use busybee.Storage.Kv.Lock.Exclusion.{Op, acquire, release, apply}

-- the log lines of `lock` cut the request's own key at 18 bytes
abbrev pub IsLoggable : Op → Type 0
IsLoggable (acquire now req) = 18 ≤ length req.key
IsLoggable (release expect) = Unit

module _ {S : Type 0} (D : DataStorage S) (W : Wire) where
  -- On an engine that does not fail, a lock or unlock request on a stored lease (whose end fits
  -- `int64`) returns, if a lock request's own key has at least 18 bytes.
  pub request_returns :
      (key : Bytes) (op : Op) (l : Lease) (s : S)
      → IsWorking D
      → IsLoggable op
      → IsInRange l
      → D.get s key ≡ some (encode W l)
      → apply D W key op s ≢ fatal
  unfolding apply lock unlock
  request_returns key (acquire now req) l s w k h g e = ground (
    arith,
    allow_lock-encode W now l req h,
    (w.sets s key (encode W (held req.expire_at req.value))).1,
  )
  request_returns key (release expect) l s w k h g e =
      ground (arith, may_unlock-encode W l expect, (w.deletes s key).1)
