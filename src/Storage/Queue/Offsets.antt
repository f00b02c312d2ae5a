-- ===== src/Storage/Queue/Offsets.antt =====
-- The offsets of a queue's partition in pkg/storage/cmd_handler_queue.go: the highest one, the last
-- removed one, and the one that each consumer has completed, which is followed by the time of the
-- commit. `now` is `time.Now().Unix()`.
pub mod Commits
use busybee.Prelude.{
  ℕ, Bool, true, false, Option, none, some, ◌++◌, Bytes, is_empty, leb, if◌then◌else◌,
}
use busybee.Prelude.Int.{ℤ}
use busybee.Storage.Engine.{DataStorage, M, pure, load, save, unless_panic, ◌>>=◌, ◌>>◌}
use busybee.Storage.Wire.{Wire}
use busybee.Storage.Keys.{max_offset_key, removed_offset_key, committed_offset_key}
use busybee.Storage.Reply.{Reply, unset, unchanged}

-- `v >= completed` of a value that is there
abbrev pub covers : Option ℕ → ℕ → Bool
covers none completed = false
covers (some v) completed = leb completed v

module _ {S : Type 0} (D : DataStorage S) (W : Wire) where
  unfoldable pub load_max_offset : Bytes → M S ℕ
  load_max_offset key = do
    value ← load D (max_offset_key key)
    if is_empty value then pure 0 else unless_panic (W.bytes_to_uint64 value)

  unfoldable pub load_last_completed_offset : Bytes → Bytes → M S (Option ℕ)
  load_last_completed_offset key consumer = do
    value ← load D (committed_offset_key key consumer)
    if is_empty value
        then pure none
        else (do n ← unless_panic (W.bytes_to_uint64 value); pure (some n))

  unfoldable pub load_last_removed_offset : Bytes → M S (Option ℕ)
  load_last_removed_offset key = do
    value ← load D (removed_offset_key key)
    if is_empty value
        then pure none
        else (do n ← unless_panic (W.bytes_to_uint64 value); pure (some n))

  unfoldable pub must_put_completed_offset : ℤ → Bytes → Bytes → ℕ → M S (Unit {0})
  must_put_completed_offset now key consumer value =
      save D (committed_offset_key key consumer) (W.uint64_to_bytes value ++ W.int64_to_bytes now)

  unfoldable pub queue_commit : ℤ → Bytes → Bytes → ℕ → M S Reply
  unfolding load_last_completed_offset must_put_completed_offset
  queue_commit now key consumer completed = do
    last ← load_last_completed_offset key consumer
    if covers last completed
        then pure (unchanged unset)
        else (do must_put_completed_offset now key consumer completed; pure (unchanged unset))
