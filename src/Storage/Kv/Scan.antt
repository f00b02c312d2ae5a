-- ===== src/Storage/Kv/Scan.antt =====
-- `scan` of pkg/storage/cmd_handler_kv.go. `DecodeDataKey` of the raft store is a parameter.
pub mod Bounds
use busybee.Prelude.{
  ℕ, ◌+◌, ◌≤◌, ◌≡◌, refl, ap, some, List, [], ◌∷◌, ◌++◌, Bytes, is_empty, bytes_compare, is_gt,
  length, leb, ltb, take, ◌<◌, ◌⊎◌, ◌||◌, not, true, false, get_elem?, bytes_compare_self, arith,
  Bool-cases, inl, inr, if◌then◌else◌,
}
use busybee.Storage.Engine.{DataStorage, M, pure, done, stop, ◌>>=◌}
use busybee.Storage.Wire.{Wire}
use busybee.Storage.Queue.Items.{Ranges, scan_range, allow_write_to_buf, max_bytes_in_buf}
use busybee.Storage.Condition.Meaning.{compare_swap}

-- the end of the request, or that of the shard if it has one and it comes first
unfoldable pub scan_end : Bytes → Bytes → Bytes → Bytes
scan_end key end shard_end =
    let to = take 9 key ++ end in
    let max = take 9 key ++ shard_end in
    if is_empty shard_end then to else (if is_gt (bytes_compare to max) then max else to)

-- The callback over the entries, with the number of keys so far: it stops when the buffer is full or
-- when the limit is reached.
unfoldable pub take_pairs :
    (Bytes → Bytes) → ℕ → ℕ → ℕ → List (Bytes × Bytes) → List (Bytes × Bytes)
unfolding allow_write_to_buf
take_pairs decode write_index limit n [] = []
take_pairs decode write_index limit n ((key, value) ∷ entries) =
    let rest =
      take_pairs decode (write_index + length (decode key) + length value) limit (n + 1) entries in
    if allow_write_to_buf write_index (length value)
    then (if leb limit n then [] else (decode key, value) ∷ rest)
    else []

-- where the buffer is written to after the ends of the range were put into it
abbrev pub after_ends : ℕ → Bytes → Bytes → ℕ
after_ends write_index end shard_end =
    write_index + 9 + length end + (if is_empty shard_end then 0 else 9 + length shard_end)

module _ {S : Type 0} (D : DataStorage S) (G : Ranges S) (W : Wire) where
  -- The keys with their values. A key that is shorter than the prefix of 9 bytes panics.
  unfoldable pub scan : (Bytes → Bytes) → Bytes → Bytes → Bytes → ℕ → ℕ → M S (List (Bytes × Bytes))
  unfolding scan_end take_pairs
  scan decode key end shard_end write_index limit = if ltb (length key) 9 then stop else (do
    entries ← scan_range D G W key (scan_end key end shard_end)
    pure (take_pairs decode (after_ends write_index end shard_end) limit 0 entries))
