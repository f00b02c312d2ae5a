-- ===== src/Storage/Kv/Lock.antt =====
-- The lock table of pkg/storage/cmd_handler_kv.go: `allowLock`, `lock` and `unlock`. A lock is a
-- value of eight bytes of expiry time and the bytes of its holder. `now` is `time.Now().Unix()`.
use busybee.Prelude.{
  ℕ, ◌+◌, Bool, true, false, not, Option, none, some, ◌++◌, ◌&&◌, ◌||◌, Bytes, is_empty,
  bytes_equal, length, leb, drop, if◌then◌else◌,
}
use busybee.Prelude.Int.{ℤ, pos, ltb_ℤ, ◌-ℤ◌}
use busybee.Storage.Engine.{
  DataStorage, M, pure, load, save, remove, unless_panic, in_range, ◌>>=◌, ◌>>◌,
}
use busybee.Storage.Wire.{Wire}
use busybee.Storage.Reply.{Reply, boolean, reply, unchanged}
pub mod Lease
pub mod Exclusion
pub mod Progress

pub record LockRequest : Type 0 where
  pub key : Bytes
  pub value : Bytes
  pub expire_at : ℤ

-- `value[8:]` panics on fewer than eight bytes
abbrev pub holder_of : Bytes → Option Bytes
holder_of value = if leb 8 (length value) then some (drop 8 value) else none

module _ (W : Wire) where
  -- `none` is the panic of a stored value that is too short
  unfoldable pub allow_lock : ℤ → Bytes → Bytes → ℤ → Option Bool
  allow_lock now value expect expect_expire_at =
      if is_empty value then some true else elim (W.bytes_to_int64 value) [
        | none ↦ none
        | some expire_at ↦ elim (holder_of value) [
          | none ↦ none
          | some holder ↦ some (
              (not (ltb_ℤ now expire_at) && ltb_ℤ expire_at expect_expire_at)
              || bytes_equal expect holder)
        ]
      ]

-- the test of `lock`'s log line: a first holder, or another one than before
abbrev pub is_changed : Bytes → Bytes → Bool
is_changed value expect = is_empty value || not (bytes_equal (drop 8 value) expect)

-- the test of `unlock`: a missing lock counts as the caller's
abbrev pub may_unlock : Bytes → Bytes → Option Bool
may_unlock value expect =
    if is_empty value
    then some true
    else elim (holder_of value) [ none ↦ none | some h ↦ some (bytes_equal expect h) ]

module _ {S : Type 0} (D : DataStorage S) (W : Wire) where
  -- The refusal's log line slices the request's own key, and both branches' lines the old value.
  unfoldable pub lock : ℤ → Bytes → LockRequest → M S Reply
  unfolding allow_lock
  lock now key req = do
    value ← load D key
    allowed ← unless_panic (allow_lock W now value req.value req.expire_at)
    if allowed
        then (do
          save D key (W.int64_to_bytes req.expire_at ++ req.value)
          in_range (if is_changed value req.value then leb 18 (length req.key) else true)
          let written : ℕ = if is_empty value then 0 else length key + length req.value + 8
          pure (reply written (pos written) (boolean true)))
        else (do in_range (leb 18 (length req.key)); pure (unchanged (boolean false)))

  unfoldable pub unlock : Bytes → Bytes → M S Reply
  unlock key expect = do
    value ← load D key
    matches ← unless_panic (may_unlock value expect)
    if matches
        then (do
          remove D key
          let written : ℕ = if is_empty value then 0 else length key + length expect + 8
          pure (reply written (pos 0 -ℤ pos written) (boolean true)))
        else pure (unchanged (boolean false))
