-- ===== src/Storage/Keys/Queues.antt =====
-- The records of a whole queue in pkg/storage/keys.go: those of its partitions, the states of its
-- groups, and the values that are stored beside it. A scan of a partition's items is between two of
-- these keys.
use busybee.Prelude.{
  ℕ, ◌<◌, ◌≤◌, ◌≡◌, refl, sym, ◌∙◌, Bool, false, ◌&&◌, length, [], ◌∷◌, ◌++◌, Bytes, bytes_compare,
  bytes_compare-append, bytes_compare→eq, is_eq, arith, ◌==◌, Bool-cases, inl, inr,
}
use mathlib.Core.List.{append_assoc}
use busybee.Storage.Condition.Meaning.{compare_swap}
use busybee.Storage.Wire.{Wire, u32_mod, u64_mod}
use busybee.Storage.Keys.{
  partition_key, queue_item_key, tenant_queue_state_key, tenant_queue_kv_key, max_offset_key,
  removed_offset_key, committed_offset_key, queue_meta_key,
}
use busybee.Storage.Keys.Ranges.{
  is_scanned, is_scanned-prefix, QueueRecord, max_offset, removed_offset, item, committed, meta,
  is_item_within, FitsQueue, queue_record_key, item_bounds,
}

-- what a queue stores under its id
pub data Record : Type 0 where
  of_partition : ℕ → QueueRecord → Record
  group_state : Bytes → Record
  value : Bytes → Record

abbrev pub is_own_item : ℕ → ℕ → ℕ → Record → Bool
is_own_item p lo hi (of_partition q x) = q == p && is_item_within lo hi x
is_own_item p lo hi _ = false

-- a partition's number is below 2^26
abbrev pub Fits : Record → Type 0
Fits (of_partition q x) = (q < 67108864) × FitsQueue x
Fits _ = Unit

module _ (W : Wire) where
  pub key_of_record : ℕ → Record → Bytes
  key_of_record id (of_partition q x) = queue_record_key W (partition_key W id q) x
  key_of_record id (group_state group) = tenant_queue_state_key W id group
  key_of_record id (value key) = tenant_queue_kv_key W id key

  -- the end of a partition's record
  tail : QueueRecord → Bytes
  tail max_offset = 0 ∷ []
  tail removed_offset = 1 ∷ []
  tail (item n) = 2 ∷ W.uint64_to_bytes n
  tail (committed c) = 3 ∷ c
  tail meta = 6 ∷ []

  queue_record_key-tail : (src : Bytes) (x : QueueRecord) → queue_record_key W src x ≡ src ++ tail x
  unfolding queue_record_key tail max_offset_key removed_offset_key queue_item_key
      committed_offset_key queue_meta_key
  queue_record_key-tail src max_offset = refl
  queue_record_key-tail src removed_offset = refl
  queue_record_key-tail src (item n) = refl
  queue_record_key-tail src (committed c) = refl
  queue_record_key-tail src meta = refl

  -- keys under one prefix, and a key under another that is as long
  apart :
      (ps qs a b c : Bytes)
      → length ps ≡ length qs
      → is_eq (bytes_compare ps qs) ≡ false
      → is_scanned (ps ++ a) (ps ++ b) (qs ++ c) ≡ false
  apart ps qs a b c l ne =
      rw (bytes_compare-append ps qs a c l, bytes_compare-append qs ps c b (sym l))
        (ground (arith, ne, compare_swap ps qs, compare_swap qs ps))

  -- the keys of a partition against any other key under the id
  scan_under :
      (id p : ℕ) (a b c : Bytes)
      → is_scanned
          (partition_key W id p ++ a)
          (partition_key W id p ++ b)
          (W.uint64_to_bytes id ++ c)
        ≡ is_scanned (W.uint32_to_bytes p ++ a) (W.uint32_to_bytes p ++ b) c
  unfolding partition_key
  scan_under id p a b c =
      rw
        (
          append_assoc (W.uint64_to_bytes id) (W.uint32_to_bytes p) a,
          append_assoc (W.uint64_to_bytes id) (W.uint32_to_bytes p) b,
        )
        (is_scanned-prefix (W.uint64_to_bytes id) (W.uint32_to_bytes p ++ a)
          (W.uint32_to_bytes p ++ b) c)

  numbers_differ :
      (p q : ℕ)
      → p < u32_mod
      → q < u32_mod
      → q == p ≡ false
      → is_eq (bytes_compare (W.uint32_to_bytes p) (W.uint32_to_bytes q)) ≡ false
  numbers_differ p q hp hq ne = ground (
    arith,
    ne,
    bytes_compare→eq (W.uint32_to_bytes p) (W.uint32_to_bytes q),
    W.uint32_roundtrip p hp,
    W.uint32_roundtrip q hq,
  )

  other_partition :
      (id p q : ℕ) (a b c : Bytes)
      → p < u32_mod
      → q < u32_mod
      → q == p ≡ false
      → is_scanned
          (partition_key W id p ++ a)
          (partition_key W id p ++ b)
          (partition_key W id q ++ c)
        ≡ false
  unfolding partition_key
  other_partition id p q a b c hp hq ne =
      rw (append_assoc (W.uint64_to_bytes id) (W.uint32_to_bytes q) c) (
        scan_under id p a b (W.uint32_to_bytes q ++ c)
        ∙ apart (W.uint32_to_bytes p) (W.uint32_to_bytes q) a b c
            (W.length-uint32 p ∙ sym (W.length-uint32 q)) (numbers_differ p q hp hq ne))

  -- a key that is under the id and a field of at least 4, where a partition's number starts lower
  other_field :
      (id p field : ℕ) (a b c : Bytes)
      → p < 67108864
      → 4 ≤ field
      → is_scanned
          (partition_key W id p ++ a)
          (partition_key W id p ++ b)
          (W.uint64_to_bytes id ++ (field ∷ c))
        ≡ false
  unfolding bytes_compare
  other_field id p field a b c hp hf =
      let (rest, e) = W.uint32_head p (omega arith) in
      scan_under id p a b (field ∷ c) ∙ rw e (ground (arith, hp, hf))

  -- The scan from one offset of a partition up to another visits exactly the partition's items at the
  -- offsets between them, and none of the other records of the queue: those of its partitions, the
  -- states of its groups and the values stored beside it. There are fewer than 2^26 partitions.
  pub item_scan_exact :
      (id p lo hi : ℕ) (x : Record)
      → p < 67108864
      → lo < u64_mod
      → hi < u64_mod
      → Fits x
      → is_scanned
          (queue_item_key W (partition_key W id p) lo)
          (queue_item_key W (partition_key W id p) hi)
          (key_of_record id x)
        ≡ is_own_item p lo hi x
  unfolding key_of_record queue_item_key tenant_queue_state_key tenant_queue_kv_key
  item_scan_exact id p lo hi (group_state group) hp h k f =
      other_field id p 5 (2 ∷ W.uint64_to_bytes lo) (2 ∷ W.uint64_to_bytes hi) group hp
        (omega arith)
  item_scan_exact id p lo hi (value key) hp h k f =
      other_field id p 4 (2 ∷ W.uint64_to_bytes lo) (2 ∷ W.uint64_to_bytes hi) key hp (omega arith)
  item_scan_exact id p lo hi (of_partition q x) hp h k f = elim (Bool-cases (q == p)) [
    | inl y ↦
        let same : q ≡ p = ground (arith, y) in
        rw (y, same) (item_bounds W (partition_key W id p) lo hi x h k f.1)
    | inr n ↦
        rw (n, queue_record_key-tail (partition_key W id q) x)
          (other_partition id p q (2 ∷ W.uint64_to_bytes lo) (2 ∷ W.uint64_to_bytes hi) (tail x)
            (omega (arith, hp)) (omega (arith, f.0)) n)
  ]
