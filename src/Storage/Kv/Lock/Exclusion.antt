-- ===== src/Storage/Kv/Lock/Exclusion.antt =====
-- `lock` and `unlock` of pkg/storage/cmd_handler_kv.go against the lease that the store holds.
use busybee.Prelude.{
  at_key, bytes_equal, bytes_equal_self, ◌≡◌, ◌≢◌, true, false, some, List, [], ◌∷◌, Bytes,
  bytes_equal→eq, arith, if◌then◌else◌, All,
}
use busybee.Prelude.Int.{ℤ, ltb_ℤ}
use busybee.Storage.Engine.{DataStorage, M, done, each, each-nil, each-cons}
use busybee.Storage.Wire.{Wire, IsInt64}
use busybee.Storage.Reply.{Reply, boolean}
use busybee.Storage.Kv.Lock.{LockRequest, lock, unlock}
use busybee.Storage.Kv.Lock.Lease.{
  Lease, free, held, grants, may_release, IsInRange, encode, allow_lock-encode, may_unlock-encode,
}

module _ {S : Type 0} (D : DataStorage S) (W : Wire) where
  -- Where the store holds a lease whose end fits `int64`, a lock request that returns answers whether the lease could be taken, leaves the new lease if
  -- so and the old one if not, and leaves every other key as it was.
  pub lock_refines :
      (now : ℤ) (key j : Bytes) (req : LockRequest) (l : Lease) (s t : S) (r : Reply)
      → IsInRange l
      → D.get s key ≡ some (encode W l)
      → lock D W now key req s ≡ done (r, t)
      → let taken = grants now l req in
        (r.response ≡ boolean taken)
        × (D.get t j ≡ (
            if bytes_equal j key
            then some (encode W (if taken then held req.expire_at req.value else l))
            else D.get s j))
  unfolding lock
  lock_refines now key j req l s t r h g e = (
    ground (arith, allow_lock-encode W now l req h),
    at_key (D.get t) (D.get s) j key
        (ground (
          arith,
          allow_lock-encode W now l req h,
          D.get-set_self s t key (encode W (held req.expire_at req.value)),
        ))
        (λ ne. ground (
          arith,
          allow_lock-encode W now l req h,
          D.get-set_ne s t key (encode W (held req.expire_at req.value)) j,
        )),
  )

  -- An unlock request that returns answers whether the lock was the caller's or nobody's, and
  -- leaves the lock free if so and as it was if not.
  pub unlock_refines :
      (key j expect : Bytes) (l : Lease) (s t : S) (r : Reply)
      → D.get s key ≡ some (encode W l)
      → unlock D W key expect s ≡ done (r, t)
      → let released = may_release l expect in
        (r.response ≡ boolean released)
        × (D.get t j ≡ (
            if bytes_equal j key
            then some (encode W (if released then free else l))
            else D.get s j))
  unfolding unlock
  unlock_refines key j expect l s t r g e = (
    ground (arith, may_unlock-encode W l expect),
    at_key (D.get t) (D.get s) j key
        (ground (arith, may_unlock-encode W l expect, D.get-delete_self s t key))
        (λ ne. ground (arith, may_unlock-encode W l expect, D.get-delete_ne s t key j)),
  )

-- A request on one lock, in the order in which the log applies them.
pub data Op : Type 0 where
  acquire : ℤ → LockRequest → Op
  release : Bytes → Op

-- a request of someone else than the holder, made before the lease is over
abbrev pub IsForeign : ℤ → Bytes → Op → Type 0
IsForeign e holder (acquire now req) = (ltb_ℤ now e ≡ true) × (req.value ≢ holder)
IsForeign e holder (release expect) = expect ≢ holder

abbrev pub IsRefused : Reply → Type 0
IsRefused r = r.response ≡ boolean false

module _ {S : Type 0} (D : DataStorage S) (W : Wire) where
  unfoldable pub apply : Bytes → Op → M S Reply
  apply key (acquire now req) = lock D W now key req
  apply key (release expect) = unlock D W key expect

  apply-IsForeign :
      (e : ℤ) (holder key : Bytes) (op : Op) (s t : S) (r : Reply)
      → IsInt64 e
      → IsForeign e holder op
      → D.get s key ≡ some (encode W (held e holder))
      → apply key op s ≡ done (r, t)
      → IsRefused r × (D.get t key ≡ some (encode W (held e holder)))
  unfolding apply
  apply-IsForeign e holder key (acquire now req) s t r h f g x = ground (
    arith,
    lock_refines D W now key key req (held e holder) s t r h g x,
    bytes_equal→eq req.value holder,
    bytes_equal_self key,
  )
  apply-IsForeign e holder key (release expect) s t r h f g x = ground (
    arith,
    unlock_refines D W key key expect (held e holder) s t r g x,
    bytes_equal→eq expect holder,
    bytes_equal_self key,
  )

  -- Mutual exclusion: while a lease lasts (its end fits `int64`), any sequence of lock and unlock requests of others is
  -- refused, each of them, and the lease stays with its holder.
  pub run_excludes :
      (e : ℤ) (holder key : Bytes) (ops : List Op) (s t : S) (rs : List Reply)
      → IsInt64 e
      → All (IsForeign e holder) ops
      → D.get s key ≡ some (encode W (held e holder))
      → each (apply key) ops s ≡ done (rs, t)
      → All IsRefused rs × (D.get t key ≡ some (encode W (held e holder)))
  run_excludes e holder key [] s t rs h f g x =
      let (er, et) = each-nil (apply key) x in rw (er, et) (tt, g)
  run_excludes e holder key (op ∷ ops) s t rs h f g x =
      let (r, u, rs', first, later, er) = each-cons (apply key) op ops s x in
      let one = apply-IsForeign e holder key op s u r h f.0 g first in
      let rest = run_excludes e holder key ops u t rs' h f.1 one.1 later in
      rw er ((one.0, rest.0), rest.1)
