-- ===== src/Storage/Kv/Lock/Lease.antt =====
-- What a stored lock means: nobody's, or a holder's until a time; and the rule that `lock` and
-- `unlock` of pkg/storage/cmd_handler_kv.go are to implement.
use busybee.Prelude.{
  ◌≡◌, refl, Bool, true, false, not, some, [], ◌++◌, ◌&&◌, ◌||◌, Bytes, is_empty, bytes_equal,
  length, length-append, drop-append, arith, ◌∷◌,
}
use busybee.Prelude.Int.{ℤ, ltb_ℤ}
use busybee.Storage.Wire.{Wire, IsInt64}
use busybee.Storage.Kv.Lock.{LockRequest, allow_lock, holder_of, may_unlock}

pub data Lease : Type 0 where
  free : Lease
  held : ℤ → Bytes → Lease

-- A lease can be taken when it is free, by its holder, or when it is over and the new one ends later.
abbrev pub grants : ℤ → Lease → LockRequest → Bool
grants now free req = true
grants now (held expire_at holder) req =
    (not (ltb_ℤ now expire_at) && ltb_ℤ expire_at req.expire_at) || bytes_equal req.value holder

abbrev pub may_release : Lease → Bytes → Bool
may_release free expect = true
may_release (held expire_at holder) expect = bytes_equal expect holder

abbrev pub IsInRange : Lease → Type 0
IsInRange free = Unit
IsInRange (held expire_at holder) = IsInt64 expire_at

module _ (W : Wire) where
  abbrev pub encode : Lease → Bytes
  encode free = []
  encode (held expire_at holder) = W.int64_to_bytes expire_at ++ holder

  is_empty-held : (x : Bytes) (holder : Bytes) → length x ≡ 8 → is_empty (x ++ holder) ≡ false
  is_empty-held [] holder h = absurd (omega arith)
  is_empty-held (b ∷ x) holder h = refl

  holder_of-held : (e : ℤ) (holder : Bytes) → holder_of (W.int64_to_bytes e ++ holder) ≡ some holder
  holder_of-held e holder = ground (
    arith,
    W.length-int64 e,
    length-append (W.int64_to_bytes e) holder,
    drop-append 8 (W.int64_to_bytes e) holder (W.length-int64 e),
  )

  pub allow_lock-encode :
      (now : ℤ) (l : Lease) (req : LockRequest)
      → IsInRange l
      → allow_lock W now (encode l) req.value req.expire_at ≡ some (grants now l req)
  unfolding allow_lock
  allow_lock-encode now free req h = refl
  allow_lock-encode now (held e holder) req h = ground (
    arith,
    is_empty-held (W.int64_to_bytes e) holder (W.length-int64 e),
    W.int64_roundtrip e holder h,
    holder_of-held e holder,
  )

  pub may_unlock-encode :
      (l : Lease) (expect : Bytes) → may_unlock (encode l) expect ≡ some (may_release l expect)
  may_unlock-encode free expect = refl
  may_unlock-encode (held e holder) expect =
      ground (
        arith,
        is_empty-held (W.int64_to_bytes e) holder (W.length-int64 e),
        holder_of-held e holder,
      )
