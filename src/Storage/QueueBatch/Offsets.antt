-- ===== src/Storage/QueueBatch/Offsets.antt =====
-- The offsets that the items of a partition get in pkg/storage/batch_queue.go.
use busybee.Prelude.{
  ℕ, suc, ◌+◌, ◌%◌, ◌<◌, ◌≡◌, ◌⊎◌, inl, inr, refl, sym, ap, ◌∙◌, true, false, some, List, [], ◌∷◌,
  ◌++◌, Bytes, is_empty, length, arith,
}
use mathlib.Core.List.{append_assoc, append-nil}
use busybee.Storage.Engine.{DataStorage, done}
use busybee.Storage.Wire.{Wire, u64_mod}
use busybee.Storage.Keys.{max_offset_key, queue_item_key}
use busybee.Storage.QueueBatch.{
  PartitionBatch, QueueBatch, Batch, find_partition, put_partition, partition_batch, add_item,
  add_items,
}

module _ {S : Type 0} (D : DataStorage S) (W : Wire) where
  -- the items under their keys, by offsets that follow one another
  abbrev pub numbered : Bytes → ℕ → List Bytes → List (Bytes × Bytes)
  unfolding queue_item_key
  numbered queue_key m [] = []
  numbered queue_key m (item ∷ items) =
      (queue_item_key W queue_key (m + 1), item) ∷ numbered queue_key (m + 1) items

  -- the highest offset of a partition, which its batch knows or the store has
  abbrev pub StandsAt : ℕ → PartitionBatch → S → Type 0
  StandsAt m pb s =
      ((pb.loaded ≡ true) × (pb.max_offset ≡ m))
      ⊎ ((pb.loaded ≡ false) × (D.get s (max_offset_key pb.queue_key) ≡ some (W.uint64_to_bytes m)))

  not_empty : (m : ℕ) → is_empty (W.uint64_to_bytes m) ≡ false
  not_empty m = go (W.uint64_to_bytes m) (W.length-uint64 m)
    where
      go : (bs : Bytes) → length bs ≡ 8 → is_empty bs ≡ false
      go [] h = ground (arith, h)
      go (b ∷ bs) h = refl

  uint64_back : (m : ℕ) → m < u64_mod → W.bytes_to_uint64 (W.uint64_to_bytes m) ≡ some m
  uint64_back m h =
      ap W.bytes_to_uint64 (sym (append-nil (W.uint64_to_bytes m))) ∙ W.uint64_roundtrip m [] h

  add_item-StandsAt :
      (m : ℕ) (pb : PartitionBatch) (item : Bytes) (b : Batch) (s : S)
      → m + 1 < u64_mod
      → StandsAt m pb s
      → add_item D W pb item b s
        ≡ done (
          (
            record pb { loaded = true; max_offset = m + 1; n = pb.n + 1 },
            record b {
              entries = b.entries ++ ((queue_item_key W pb.queue_key (m + 1), item) ∷ []);
            },
          ),
          s,
        )
  unfolding add_item
  add_item-StandsAt m pb item b s h (inl (l, e)) =
      let fits : (m + 1) % u64_mod ≡ m + 1 = omega arith in rw (add_item, l, e, fits) refl
  add_item-StandsAt m pb item b s h (inr (l, g)) =
      let fits : (m + 1) % u64_mod ≡ m + 1 = omega arith in
      ground (arith, l, g, not_empty m, uint64_back m (omega arith), fits)

  find_partition-put :
      (p : ℕ) (pb : PartitionBatch) (pbs : List (ℕ × PartitionBatch))
      → find_partition p (put_partition p pb pbs) ≡ some pb
  find_partition-put p pb [] = ground arith
  find_partition-put p pb ((q, old) ∷ pbs) = ground (arith, find_partition-put p pb pbs)

  add_items-step :
      (key_of : ℕ → Bytes) (partitions target : ℕ) (item : Bytes) (items : List Bytes)
      (qb : QueueBatch) (b b' : Batch) (pb : PartitionBatch) (s : S)
      → add_item D W (partition_batch D W key_of target qb) item b s ≡ done ((pb, b'), s)
      → add_items D W key_of false partitions target (item ∷ items) qb b s
        ≡ add_items D W key_of false partitions target items
            (record qb { pbs = put_partition target pb qb.pbs })
            b'
            s
  unfolding add_items
  add_items-step key_of partitions target item items qb b b' pb s e = ground (arith, e)

  -- Items added without a choice of partition, to a partition whose highest offset is known or stored,
  -- get the offsets that follow it one after the other, if these are in range; the partition's batch
  -- then knows the highest, and the store is as it was.
  pub add_items_consecutive :
      (key_of : ℕ → Bytes) (partitions target m : ℕ) (items : List Bytes) (qb : QueueBatch)
      (b : Batch) (s : S)
      → m + length items < u64_mod
      → StandsAt m (partition_batch D W key_of target qb) s
      → (qb' : QueueBatch) × (b' : Batch) × (add_items D W key_of false partitions target items qb b
            s
          ≡ done ((qb', b'), s))
        × (b'.entries
            ≡ b.entries ++ numbered (partition_batch D W key_of target qb).queue_key m items)
        × StandsAt (m + length items) (partition_batch D W key_of target qb') s
  unfolding add_items numbered
  add_items_consecutive key_of partitions target m [] qb b s h st = (
    qb,
    b,
    refl,
    sym (append-nil b.entries),
    (let zero' : m + 0 ≡ m = omega arith in rw zero' st),
  )
  add_items_consecutive key_of partitions target m (item ∷ items) qb b s h st =
      let pb = partition_batch D W key_of target qb in
      let pb' : PartitionBatch = record pb { loaded = true; max_offset = m + 1; n = pb.n + 1 } in
      let b' : Batch = record b {
        entries = b.entries ++ ((queue_item_key W pb.queue_key (m + 1), item) ∷ []);
      } in
      let qb' : QueueBatch = record qb { pbs = put_partition target pb' qb.pbs } in
      let found : partition_batch D W key_of target qb' ≡ pb' =
        ground (arith, find_partition-put target pb' qb.pbs) in
      let step =
        add_items-step key_of partitions target item items qb b b' pb' s
          (add_item-StandsAt m pb item b s (omega arith) st) in
      let (qb'', b'', run, entries, stands) =
        add_items_consecutive key_of partitions target (m + 1) items qb' b' s (omega arith)
          (rw found (inl (refl, refl))) in
      let shift : m + suc (length items) ≡ m + 1 + length items = omega arith in
      (
        qb'',
        b'',
        step ∙ run,
        entries
            ∙ rw found (
                append_assoc b.entries ((queue_item_key W pb.queue_key (m + 1), item) ∷ [])
                  (numbered pb.queue_key (m + 1) items)),
        rw shift stands,
      )
