-- ===== src/Storage/Keys/Ranges.antt =====
-- The scans that the bounds of pkg/storage/keys.go delimit: `Scan(start, end)` visits the keys from
-- `start` up to but without `end`, in byte order.
use Prim.Native.Nat.{compare}
use mathlib.Core.List.{append-nil}
use busybee.Prelude.{
  ℕ, ◌+◌, ◌%◌, ◌<◌, ◌≡◌, refl, Bool, true, false, not, ◌&&◌, [], ◌∷◌, ◌++◌, Bytes, bytes_compare,
  bytes_compare-prefix, bytes_compare-append, then_by, is_gt, is_lt, arith, leb, ltb, ◌==◌, sym,
  ◌∙◌,
}
use busybee.Storage.Wire.{Wire, u64_mod}
use busybee.Storage.Keys.{
  tenant_runner_key, tenant_runner_offset_key, tenant_runner_lock_key, tenant_runner_metadata_key,
  tenant_runner_worker_key, tenant_runner_worker_min_key, tenant_runner_worker_max_key,
  tenant_runner_worker_instance_min_key, tenant_runner_worker_instance_max_key, queue_item_key,
  max_offset_key, removed_offset_key, committed_offset_key, queue_meta_key, consumer_start_key,
  consumer_end_key,
}

-- `start ≤ key < end`
abbrev pub is_scanned : Bytes → Bytes → Bytes → Bool
is_scanned start end key = not (is_gt (bytes_compare start key)) && is_lt (bytes_compare key end)

-- what a runner stores under its own prefix
pub data RunnerRecord : Type 0 where
  own : RunnerRecord
  offset : RunnerRecord
  lock : Bytes → RunnerRecord
  metadata : RunnerRecord
  worker : ℕ → ℕ → RunnerRecord

abbrev pub is_worker : RunnerRecord → Bool
is_worker (worker w i) = true
is_worker _ = false

abbrev pub is_worker_of : ℕ → RunnerRecord → Bool
is_worker_of wid (worker w i) = w == wid
is_worker_of wid _ = false

abbrev pub FitsRecord : RunnerRecord → Type 0
FitsRecord (worker w i) = w < u64_mod
FitsRecord _ = Unit

-- what a partition of a queue stores under its own prefix
pub data QueueRecord : Type 0 where
  max_offset : QueueRecord
  removed_offset : QueueRecord
  item : ℕ → QueueRecord
  committed : Bytes → QueueRecord
  meta : QueueRecord

abbrev pub is_item_within : ℕ → ℕ → QueueRecord → Bool
is_item_within lo hi (item n) = leb lo n && ltb n hi
is_item_within lo hi _ = false

abbrev pub is_committed : QueueRecord → Bool
is_committed (committed c) = true
is_committed _ = false

abbrev pub FitsQueue : QueueRecord → Type 0
FitsQueue (item n) = n < u64_mod
FitsQueue _ = Unit

unfoldable pub queue_record_key : Wire → Bytes → QueueRecord → Bytes
queue_record_key W src max_offset = max_offset_key src
queue_record_key W src removed_offset = removed_offset_key src
queue_record_key W src (item n) = queue_item_key W src n
queue_record_key W src (committed c) = committed_offset_key src c
queue_record_key W src meta = queue_meta_key src

pub is_scanned-prefix :
    (p start end key : Bytes)
    → is_scanned (p ++ start) (p ++ end) (p ++ key) ≡ is_scanned start end key
is_scanned-prefix p start end key =
    rw (bytes_compare-prefix p start key, bytes_compare-prefix p key end)

module _ (W : Wire) where
  pub record_key : ℕ → ℕ → RunnerRecord → Bytes
  record_key t r own = tenant_runner_key W t r
  record_key t r offset = tenant_runner_offset_key W t r
  record_key t r (lock k) = tenant_runner_lock_key W t r k
  record_key t r metadata = tenant_runner_metadata_key W t r
  record_key t r (worker w i) = tenant_runner_worker_key W t r w i

  suffix : RunnerRecord → Bytes
  suffix own = []
  suffix offset = 8 ∷ []
  suffix (lock k) = 7 ∷ k
  suffix metadata = 5 ∷ []
  suffix (worker w i) = 6 ∷ (W.uint64_to_bytes w ++ W.uint32_to_bytes i)

  record_key-suffix :
      (t r : ℕ) (x : RunnerRecord) → record_key t r x ≡ tenant_runner_key W t r ++ suffix x
  unfolding record_key suffix tenant_runner_offset_key tenant_runner_lock_key
      tenant_runner_metadata_key tenant_runner_worker_key
  record_key-suffix t r own = sym (append-nil (tenant_runner_key W t r))
  record_key-suffix t r _ = refl

  scan_suffix :
      (t r : ℕ) (start end : Bytes) (x : RunnerRecord)
      → is_scanned
          (tenant_runner_key W t r ++ start)
          (tenant_runner_key W t r ++ end)
          (record_key t r x)
        ≡ is_scanned start end (suffix x)
  scan_suffix t r start end x =
      rw (record_key-suffix t r x)
        (is_scanned-prefix (tenant_runner_key W t r) start end (suffix x))

  worker_suffix : (x : RunnerRecord) → is_scanned (6 ∷ []) (7 ∷ []) (suffix x) ≡ is_worker x
  unfolding suffix bytes_compare
  worker_suffix (lock []) = refl
  worker_suffix (lock (b ∷ bs)) = refl
  worker_suffix (worker w i) = ground arith
  worker_suffix _ = refl

  -- The scan between a runner's worker bounds visits its workers and none of its other records.
  pub worker_bounds :
      (t r : ℕ) (x : RunnerRecord)
      → is_scanned
          (tenant_runner_worker_min_key W t r)
          (tenant_runner_worker_max_key W t r)
          (record_key t r x)
        ≡ is_worker x
  unfolding tenant_runner_worker_min_key tenant_runner_worker_max_key
  worker_bounds t r x = scan_suffix t r (6 ∷ []) (7 ∷ []) x ∙ worker_suffix x

  -- a number against a number followed by more
  compare_longer :
      (m n : ℕ) (rest : Bytes)
      → m < u64_mod
      → n < u64_mod
      → bytes_compare (W.uint64_to_bytes m) (W.uint64_to_bytes n ++ rest)
        ≡ then_by (compare m n) (bytes_compare [] rest)
  compare_longer m n rest h k =
      let whole =
        bytes_compare-append (W.uint64_to_bytes m) (W.uint64_to_bytes n) [] rest
          (W.length-uint64 m ∙ sym (W.length-uint64 n)) in
      rw append-nil at (rw (W.uint64_order m n h k) at whole)

  compare_shorter :
      (m n : ℕ) (rest : Bytes)
      → m < u64_mod
      → n < u64_mod
      → bytes_compare (W.uint64_to_bytes m ++ rest) (W.uint64_to_bytes n)
        ≡ then_by (compare m n) (bytes_compare rest [])
  compare_shorter m n rest h k =
      let whole =
        bytes_compare-append (W.uint64_to_bytes m) (W.uint64_to_bytes n) rest []
          (W.length-uint64 m ∙ sym (W.length-uint64 n)) in
      rw append-nil at (rw (W.uint64_order m n h k) at whole)

  instance_suffix :
      (wid : ℕ) (x : RunnerRecord)
      → wid + 1 < u64_mod
      → FitsRecord x
      → is_scanned (6 ∷ W.uint64_to_bytes wid) (6 ∷ W.uint64_to_bytes (wid + 1)) (suffix x)
        ≡ is_worker_of wid x
  unfolding suffix bytes_compare
  instance_suffix wid (worker w i) h k = ground (
    arith,
    compare_longer wid w (W.uint32_to_bytes i) (omega arith) k,
    compare_shorter w (wid + 1) (W.uint32_to_bytes i) k h,
  )
  instance_suffix wid (lock []) h k = refl
  instance_suffix wid (lock (b ∷ bs)) h k = refl
  instance_suffix wid own h k = refl
  instance_suffix wid offset h k = refl
  instance_suffix wid metadata h k = refl

  -- The scan between the bounds of one workflow visits exactly the workers of that workflow.
  pub instance_bounds :
      (t r wid : ℕ) (x : RunnerRecord)
      → wid + 1 < u64_mod
      → FitsRecord x
      → is_scanned
          (tenant_runner_worker_instance_min_key W t r wid)
          (tenant_runner_worker_instance_max_key W t r wid)
          (record_key t r x)
        ≡ is_worker_of wid x
  unfolding tenant_runner_worker_instance_min_key tenant_runner_worker_instance_max_key
  instance_bounds t r wid x h k =
      let next : (wid + 1) % u64_mod ≡ wid + 1 = omega arith in
      rw next (
        scan_suffix t r (6 ∷ W.uint64_to_bytes wid) (6 ∷ W.uint64_to_bytes (wid + 1)) x
        ∙ instance_suffix wid x h k)

  -- The scan from one offset up to another visits exactly the items at the offsets between them,
  -- and none of the partition's other records.
  pub item_bounds :
      (src : Bytes) (lo hi : ℕ) (x : QueueRecord)
      → lo < u64_mod
      → hi < u64_mod
      → FitsQueue x
      → is_scanned (queue_item_key W src lo) (queue_item_key W src hi) (queue_record_key W src x)
        ≡ is_item_within lo hi x
  unfolding queue_item_key queue_record_key max_offset_key removed_offset_key committed_offset_key
      queue_meta_key bytes_compare
  item_bounds src lo hi (item n) h k f =
      is_scanned-prefix src (2 ∷ W.uint64_to_bytes lo) (2 ∷ W.uint64_to_bytes hi)
        (2 ∷ W.uint64_to_bytes n)
      ∙ ground (arith, W.uint64_order lo n h f, W.uint64_order n hi f k)
  item_bounds src lo hi max_offset h k f =
      is_scanned-prefix src (2 ∷ W.uint64_to_bytes lo) (2 ∷ W.uint64_to_bytes hi) (0 ∷ [])
  item_bounds src lo hi removed_offset h k f =
      is_scanned-prefix src (2 ∷ W.uint64_to_bytes lo) (2 ∷ W.uint64_to_bytes hi) (1 ∷ [])
  item_bounds src lo hi (committed c) h k f =
      is_scanned-prefix src (2 ∷ W.uint64_to_bytes lo) (2 ∷ W.uint64_to_bytes hi) (3 ∷ c)
  item_bounds src lo hi meta h k f =
      is_scanned-prefix src (2 ∷ W.uint64_to_bytes lo) (2 ∷ W.uint64_to_bytes hi) (6 ∷ [])

  -- The scan between a partition's consumer bounds visits exactly its committed offsets.
  pub consumer_bounds :
      (src : Bytes) (x : QueueRecord)
      → is_scanned (consumer_start_key src) (consumer_end_key src) (queue_record_key W src x)
        ≡ is_committed x
  unfolding consumer_start_key consumer_end_key queue_item_key queue_record_key max_offset_key
      removed_offset_key committed_offset_key queue_meta_key bytes_compare
  consumer_bounds src (item n) = is_scanned-prefix src (3 ∷ []) (4 ∷ []) (2 ∷ W.uint64_to_bytes n)
  consumer_bounds src (committed []) = is_scanned-prefix src (3 ∷ []) (4 ∷ []) (3 ∷ [])
  consumer_bounds src (committed (b ∷ bs)) = is_scanned-prefix src (3 ∷ []) (4 ∷ []) (3 ∷ (b ∷ bs))
  consumer_bounds src max_offset = is_scanned-prefix src (3 ∷ []) (4 ∷ []) (0 ∷ [])
  consumer_bounds src removed_offset = is_scanned-prefix src (3 ∷ []) (4 ∷ []) (1 ∷ [])
  consumer_bounds src meta = is_scanned-prefix src (3 ∷ []) (4 ∷ []) (6 ∷ [])
