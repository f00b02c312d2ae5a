-- ===== src/Storage/QueueBatch.antt =====
-- pkg/storage/batch_queue.go and batch_kv.go: what one batch of the log makes of the requests to add
-- items to a queue, to set and to delete, and batch.go's composition of them.
pub mod Offsets
pub mod Turns
mod Tests
use busybee.Prelude.{
  ℕ, zero, suc, ◌+◌, ◌%◌, Bool, true, false, not, Option, none, some, List, [], ◌∷◌, ◌++◌, Bytes,
  is_empty, length, drop, take, ◌-◌, ◌==◌, leb, ltb, if◌then◌else◌,
}
use busybee.Prelude.Int.{ℤ, pos, ◌+ℤ◌, ◌-ℤ◌}
use busybee.Storage.Engine.{
  DataStorage, WriteOp, put, put_with_ttl, erase, M, pure, load, write_batch, unless_panic, ◌>>=◌,
  ◌>>◌,
}
use busybee.Storage.Wire.{Wire, u32_mod, u64_mod}
use busybee.Storage.Codec.{Codec, decode}
use busybee.Storage.Keys.{
  max_offset_key, queue_item_key, queue_kv_key, partition_key, partition_meta_key,
}
use busybee.Storage.Condition.{Condition, match_condition}
use busybee.Storage.Queue.Group.{QueueState}

-- `queuePartitionBatch`
pub record PartitionBatch : Type 0 where
  pub loaded : Bool
  pub max_offset : ℕ
  pub n : ℕ
  pub queue_key : Bytes

-- `queueBatch`; `metadata` is `none` until it is loaded
pub record QueueBatch : Type 0 where
  pub metadata : Option QueueState
  pub pbs : List (ℕ × PartitionBatch)
  pub next : ℕ

-- `batch`: the write batch, the keys with their values, and the byte counts
pub record Batch : Type 0 where
  pub wb : List WriteOp
  pub entries : List (Bytes × Bytes)
  pub written_bytes : ℕ
  pub changed_bytes : ℤ

pub record QueueAddRequest : Type 0 where
  pub key : Bytes
  pub items : List Bytes
  pub kvs : List Bytes
  -- with its key
  pub condition : Option (Bytes × Condition)
  pub alloc_partition : Bool

-- `kvBatch.addReq` of a `Set` (key, value, `int32` of the time to live) or a `Delete`
unfoldable pub add_set : Bytes → Bytes → ℤ → Batch → Batch
add_set key value ttl b = record b {
  wb = b.wb ++ (put_with_ttl key value ttl ∷ []);
  written_bytes = (b.written_bytes + (length key + length value)) % u64_mod;
  changed_bytes = b.changed_bytes +ℤ pos (length key + length value);
}

unfoldable pub add_delete : Bytes → Batch → Batch
add_delete key b = record b {
  wb = b.wb ++ (erase key ∷ []);
  written_bytes = (b.written_bytes + length key) % u64_mod;
  changed_bytes = b.changed_bytes -ℤ pos (length key);
}

-- `nextPartition`: the turn, and the next one
unfoldable pub next_partition : ℕ → ℕ → ℕ × ℕ
next_partition partitions turn =
    let turn' = (turn + 1) % u32_mod in (turn, if turn' == partitions then 0 else turn')

abbrev pub find_partition : ℕ → List (ℕ × PartitionBatch) → Option PartitionBatch
find_partition p [] = none
find_partition p ((q, pb) ∷ pbs) = if p == q then some pb else find_partition p pbs

abbrev pub put_partition :
    ℕ → PartitionBatch → List (ℕ × PartitionBatch) → List (ℕ × PartitionBatch)
put_partition p pb [] = (p, pb) ∷ []
put_partition p pb ((q, old) ∷ pbs) =
    let rest = put_partition p pb pbs in if p == q then (q, pb) ∷ pbs else (q, old) ∷ rest

-- the request may go on
abbrev pub queued : Batch → List WriteOp → Batch
queued b ops = record b { wb = b.wb ++ ops }

module _ {S : Type 0} (D : DataStorage S) (W : Wire) where
  -- `queuePartitionBatch.add`, of an item
  unfoldable pub add_item : PartitionBatch → Bytes → Batch → M S (PartitionBatch × Batch)
  unfolding max_offset_key queue_item_key
  add_item pb item b = do
    value ← if pb.loaded then pure [] else load D (max_offset_key pb.queue_key)
    stored ← if is_empty value then pure pb.max_offset else unless_panic (W.bytes_to_uint64 value)
    let offset = (stored + 1) % u64_mod in
        pure (
          record pb { loaded = true; max_offset = offset; n = pb.n + 1 },
          record b { entries = b.entries ++ ((queue_item_key W pb.queue_key offset, item) ∷ []) },
        )

  -- `newPartitionBatch`, with the key of the partition in its raft group
  abbrev pub new_partition_batch : Bytes → PartitionBatch
  new_partition_batch queue_key = record {
    loaded = false;
    max_offset = 0;
    n = 0;
    queue_key = queue_key;
  }

  -- the partition's batch, a new one if it has none
  abbrev pub partition_batch : (ℕ → Bytes) → ℕ → QueueBatch → PartitionBatch
  partition_batch key_of target qb = elim (find_partition target qb.pbs) [
    | none ↦ new_partition_batch (key_of target)
    | some pb ↦ pb
  ]

  -- The loop of `addReq` over the items: `key_of` encodes the key of a partition.
  unfoldable pub add_items :
      (ℕ → Bytes) → Bool → ℕ → ℕ → List Bytes → QueueBatch → Batch → M S (QueueBatch × Batch)
  unfolding add_item next_partition
  add_items key_of alloc partitions target [] qb b = pure (qb, b)
  add_items key_of alloc partitions target (item ∷ items) qb b =
      let (turn, next) = next_partition partitions qb.next in
      let target' = if alloc then turn else target in
      let qb' = if alloc then record qb { next = next } else qb in
      do
        added ← add_item (partition_batch key_of target' qb') item b
        add_items key_of alloc partitions target' items
            (record qb' { pbs = put_partition target' added.0 qb'.pbs }) added.1

  -- the pairs of `KVS`; a last key without a value is passed over
  unfoldable pub kv_ops : Bytes → ℕ → List Bytes → List WriteOp
  unfolding queue_kv_key
  kv_ops prefix id [] = []
  kv_ops prefix id (k ∷ []) = []
  kv_ops prefix id (k ∷ (v ∷ rest)) = put (queue_kv_key W prefix id k) v ∷ kv_ops prefix id rest

  -- `queueBatch.matchCondition`
  unfoldable pub match_queue_condition : Bytes → ℕ → QueueAddRequest → M S Bool
  unfolding queue_kv_key match_condition
  match_queue_condition prefix id req = elim req.condition [
    | none ↦ pure true
    | some (key, cond) ↦ do
      value ← load D (queue_kv_key W prefix id key)
      pure (match_condition value cond)
  ]

  -- `exec` of each partition's batch, which adds its highest offset
  unfoldable pub exec_partitions : List (ℕ × PartitionBatch) → List WriteOp
  unfolding max_offset_key
  exec_partitions [] = []
  exec_partitions ((p, pb) ∷ pbs) =
      let rest = exec_partitions pbs in
      if pb.max_offset == 0
      then rest
      else put (max_offset_key pb.queue_key) (W.uint64_to_bytes pb.max_offset) ∷ rest

  abbrev put_entries : List (Bytes × Bytes) → List WriteOp
  put_entries [] = []
  put_entries ((k, v) ∷ es) = put k v ∷ put_entries es

  -- `batch.Execute` with a queue batch and a key-value batch, one write of the store
  unfoldable pub execute_batch : QueueBatch → Batch → M S (ℕ × ℤ)
  unfolding exec_partitions
  execute_batch qb b = do
    write_batch D (b.wb ++ (exec_partitions qb.pbs ++ put_entries b.entries))
    pure (b.written_bytes, b.changed_bytes)

module _ {S : Type 0} (D : DataStorage S) (W : Wire) (C : Codec QueueState) where
  -- the metadata, read once; `none` if there is none
  unfoldable pub load_metadata : Bytes → ℕ → ℕ → QueueBatch → M S (Option QueueState)
  unfolding partition_meta_key
  load_metadata prefix id target qb = elim qb.metadata [
    | some meta ↦ pure (some meta)
    | none ↦ do
      value ← load D (prefix ++ partition_meta_key W id target)
      if is_empty value then pure none else (do meta ← decode C value; pure (some meta))
  ]

  -- `addReq` of a request with its key in the log, in a raft group whose data keys `encode` gives; the
  -- answer is 0 always
  unfoldable pub add_queue_req :
      (Bytes → Bytes) → Bytes → QueueAddRequest → QueueBatch → Batch → M S (QueueBatch × Batch)
  unfolding add_items kv_ops load_metadata match_queue_condition partition_key
  add_queue_req encode log_key req qb b = do
    id ← unless_panic (W.bytes_to_uint64 req.key)
    target ← unless_panic (W.bytes_to_uint32 (drop 8 req.key))
    let prefix = take (length log_key - length req.key) log_key in
        do
          loaded ← load_metadata prefix id target qb
          elim loaded [
            | none ↦ pure (qb, b)
            | some meta ↦ do
              matches ← match_queue_condition D W prefix id req
              if matches
                  then (do
                    added ←
                        add_items D W (λ p. encode (partition_key W id p)) req.alloc_partition
                          meta.partitions target req.items (record qb { metadata = some meta }) b
                    pure (added.0, queued added.1 (kv_ops D W prefix id req.kvs)))
                  else pure (record qb { metadata = some meta }, b)
          ]
