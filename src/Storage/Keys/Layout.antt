-- ===== src/Storage/Keys/Layout.antt =====
-- The keys of pkg/storage/keys.go can be told apart: a decoder takes each back to its parts.
use busybee.Prelude.{
  ℕ, ◌<◌, ◌≡◌, sym, ap, ◌∙◌, Option, none, some, [], ◌∷◌, ◌++◌, Bytes, length, take, drop,
  drop-append, take-append, arith, ◌==◌, if◌then◌else◌, length-append,
}
use mathlib.Core.List.{append-nil, append_assoc}
use busybee.Prelude.Int.{ℤ}
use busybee.Storage.Wire.{Wire, IsInt64, u32_mod, u64_mod}
use busybee.Storage.Keys.{
  temp_key, bsi_key, output_notify_key, partition_key, tenant_metadata_key,
  workflow_current_instance_key, workflow_history_instance_key, workflow_crowd_shard_key,
  tenant_runner_key, tenant_runner_offset_key, tenant_runner_lock_key, tenant_runner_metadata_key,
  tenant_runner_worker_key, mapping_id_key, profile_key, mapping_key, committed_offset_key,
  decode_consumer_from_committed_offset_key,
}

-- What a key of the store names. Left out are the keys of queues, which begin with the queue's id, of
-- bitmap shards, which begin with any key, and of bounds, which are not stored.
pub data Name : Type 0 where
  mapping_id : ℕ → ℕ → Name
  profile : ℕ → ℕ → Name
  tenant_metadata : ℕ → Name
  runner : ℕ → ℕ → Name
  runner_offset : ℕ → ℕ → Name
  runner_lock : ℕ → ℕ → Bytes → Name
  runner_metadata : ℕ → ℕ → Name
  runner_worker : ℕ → ℕ → ℕ → ℕ → Name
  current : ℕ → Name
  history : ℕ → ℕ → Name
  crowd : ℕ → ℕ → ℕ → Name
  temp : ℤ → Bytes → Name
  output : ℕ → ℤ → Bytes → Name
  bsi : ℕ → ℕ → ℕ → Bytes → Name

-- the numbers of a name fit the source's integer types
abbrev pub Fits : Name → Type 0
Fits (mapping_id t u) = (t < u64_mod) × (u < u32_mod)
Fits (profile t u) = (t < u64_mod) × (u < u32_mod)
Fits (tenant_metadata t) = t < u64_mod
Fits (runner t r) = (t < u64_mod) × (r < u64_mod)
Fits (runner_offset t r) = (t < u64_mod) × (r < u64_mod)
Fits (runner_lock t r k) = (t < u64_mod) × (r < u64_mod)
Fits (runner_metadata t r) = (t < u64_mod) × (r < u64_mod)
Fits (runner_worker t r w i) = (t < u64_mod) × (r < u64_mod) × (w < u64_mod) × (i < u32_mod)
Fits (current w) = w < u64_mod
Fits (history w i) = (w < u64_mod) × (i < u64_mod)
Fits (crowd w i v) = (w < u64_mod) × (i < u64_mod) × (v < u32_mod)
Fits (temp now value) = IsInt64 now
Fits (output t ts value) = (t < u64_mod) × IsInt64 ts
Fits (bsi t i w step) = (t < u64_mod) × (i < u64_mod) × (w < u32_mod)

infixl 5 ◌>>=◌
abbrev ◌>>=◌ : {A B : Type 0} → Option A → (A → Option B) → Option B
none >>= f = none
some a >>= f = f a

module _ (W : Wire) where
  pub key_of : Name → Bytes
  key_of (mapping_id t u) = mapping_id_key W t u
  key_of (profile t u) = profile_key W t u
  key_of (tenant_metadata t) = tenant_metadata_key W t
  key_of (runner t r) = tenant_runner_key W t r
  key_of (runner_offset t r) = tenant_runner_offset_key W t r
  key_of (runner_lock t r k) = tenant_runner_lock_key W t r k
  key_of (runner_metadata t r) = tenant_runner_metadata_key W t r
  key_of (runner_worker t r w i) = tenant_runner_worker_key W t r w i
  key_of (current w) = workflow_current_instance_key W w
  key_of (history w i) = workflow_history_instance_key W w i
  key_of (crowd w i v) = workflow_crowd_shard_key W w i v
  key_of (temp now value) = temp_key W now value
  key_of (output t ts value) = output_notify_key W t ts value
  key_of (bsi t i w step) = bsi_key W t i w step

  read64 : Bytes → Option (ℕ × Bytes)
  read64 bs = W.bytes_to_uint64 bs >>= λ n. some (n, drop 8 bs)

  read32 : Bytes → Option (ℕ × Bytes)
  read32 bs = W.bytes_to_uint32 (take 4 bs) >>= λ n. some (n, drop 4 bs)

  read_int64 : Bytes → Option (ℤ × Bytes)
  read_int64 bs = W.bytes_to_int64 bs >>= λ n. some (n, drop 8 bs)

  read64_lem :
      (n : ℕ) (rest : Bytes) → n < u64_mod → read64 (W.uint64_to_bytes n ++ rest) ≡ some (n, rest)
  unfolding read64
  read64_lem n rest h = ground (
    arith,
    W.uint64_roundtrip n rest h,
    drop-append 8 (W.uint64_to_bytes n) rest (W.length-uint64 n),
  )

  read32_lem :
      (n : ℕ) (rest : Bytes) → n < u32_mod → read32 (W.uint32_to_bytes n ++ rest) ≡ some (n, rest)
  unfolding read32
  read32_lem n rest h = ground (
    arith,
    W.uint32_roundtrip n h,
    take-append 4 (W.uint32_to_bytes n) rest (W.length-uint32 n),
    drop-append 4 (W.uint32_to_bytes n) rest (W.length-uint32 n),
  )

  read_int64_lem :
      (x : ℤ) (rest : Bytes) → IsInt64 x → read_int64 (W.int64_to_bytes x ++ rest) ≡ some (x, rest)
  unfolding read_int64
  read_int64_lem x rest h = ground (
    arith,
    W.int64_roundtrip x rest h,
    drop-append 8 (W.int64_to_bytes x) rest (W.length-int64 x),
  )

  read_runner : ℕ → ℕ → Bytes → Option Name
  read_runner t r [] = some (runner t r)
  read_runner t r (f ∷ bs) =
      if f == 8
      then some (runner_offset t r)
      else if f == 7
      then some (runner_lock t r bs)
      else if f == 5
      then some (runner_metadata t r)
      else (do (w, bs) ← read64 bs; (i, bs) ← read32 bs; some (runner_worker t r w i))

  read_by : ℕ → Bytes → Option Name
  read_by b bs =
      if b == 0
      then (do (t, bs) ← read64 bs; (u, bs) ← read32 bs; some (mapping_id t u))
      else if b == 2
      then (do (t, bs) ← read64 bs; (u, bs) ← read32 bs; some (profile t u))
      else if b == 3
      then (do (t, bs) ← read64 bs; some (tenant_metadata t))
      else if b == 4
      then (do (t, bs) ← read64 bs; (r, bs) ← read64 bs; read_runner t r bs)
      else if b == 9
      then (do (w, bs) ← read64 bs; some (current w))
      else if b == 10
      then (do (w, bs) ← read64 bs; (i, bs) ← read64 bs; some (history w i))
      else if b == 11
      then (do (w, bs) ← read64 bs; (i, bs) ← read64 bs; (v, bs) ← read32 bs; some (crowd w i v))
      else if b == 12
      then (do (now, bs) ← read_int64 bs; some (temp now bs))
      else if b == 13
      then (do (t, bs) ← read64 bs; (ts, bs) ← read_int64 bs; some (output t ts bs))
      else (do (t, bs) ← read64 bs; (i, bs) ← read64 bs; (w, bs) ← read32 bs; some (bsi t i w bs))

  pub name_of : Bytes → Option Name
  name_of [] = none
  name_of (b ∷ bs) = read_by b bs

  -- the same at the end of a key
  read64_end : (n : ℕ) → n < u64_mod → read64 (W.uint64_to_bytes n) ≡ some (n, [])
  read64_end n h = rw append-nil at (read64_lem n [] h)

  read32_end : (n : ℕ) → n < u32_mod → read32 (W.uint32_to_bytes n) ≡ some (n, [])
  read32_end n h = rw append-nil at (read32_lem n [] h)

  -- the two ids at the head of each key of a runner
  read_runner_lem :
      (t r : ℕ) (rest : Bytes)
      → t < u64_mod
      → r < u64_mod
      → name_of (tenant_runner_key W t r ++ rest) ≡ read_runner t r rest
  unfolding name_of read_by tenant_runner_key
  read_runner_lem t r rest ht hr =
      rw append_assoc (rw (read64_lem t (W.uint64_to_bytes r ++ rest) ht, read64_lem r rest hr))

  -- Every key but an id mapping's is taken back to the name and the numbers that it was built from.
  pub name_of-key_of : (n : Name) → Fits n → name_of (key_of n) ≡ some n
  unfolding name_of key_of read_by read_runner bsi_key mapping_id_key profile_key
      tenant_metadata_key tenant_runner_offset_key tenant_runner_lock_key tenant_runner_metadata_key
      tenant_runner_worker_key workflow_current_instance_key workflow_history_instance_key
      workflow_crowd_shard_key temp_key output_notify_key
  name_of-key_of (mapping_id t u) h = rw (read64_lem t (W.uint32_to_bytes u) h.0, read32_end u h.1)
  name_of-key_of (profile t u) h = rw (read64_lem t (W.uint32_to_bytes u) h.0, read32_end u h.1)
  name_of-key_of (tenant_metadata t) h = rw (read64_end t h)
  name_of-key_of (runner t r) h = rw append-nil at (read_runner_lem t r [] h.0 h.1)
  name_of-key_of (runner_offset t r) h = read_runner_lem t r (8 ∷ []) h.0 h.1
  name_of-key_of (runner_lock t r k) h = read_runner_lem t r (7 ∷ k) h.0 h.1
  name_of-key_of (runner_metadata t r) h = read_runner_lem t r (5 ∷ []) h.0 h.1
  name_of-key_of (runner_worker t r w i) h =
      read_runner_lem t r (6 ∷ (W.uint64_to_bytes w ++ W.uint32_to_bytes i)) h.0 h.1
      ∙ rw (read64_lem w (W.uint32_to_bytes i) h.2, read32_end i h.3)
  name_of-key_of (current w) h = rw (read64_end w h)
  name_of-key_of (history w i) h = rw (read64_lem w (W.uint64_to_bytes i) h.0, read64_end i h.1)
  name_of-key_of (crowd w i v) h = rw (
    read64_lem w (W.uint64_to_bytes i ++ W.uint32_to_bytes v) h.0,
    read64_lem i (W.uint32_to_bytes v) h.1,
    read32_end v h.2,
  )
  name_of-key_of (temp now value) h = rw (read_int64_lem now value h)
  name_of-key_of (output t ts value) h =
      rw (read64_lem t (W.int64_to_bytes ts ++ value) h.0, read_int64_lem ts value h.1)
  name_of-key_of (bsi t i w step) h = rw (
    read64_lem t (W.uint64_to_bytes i ++ (W.uint32_to_bytes w ++ step)) h.0,
    read64_lem i (W.uint32_to_bytes w ++ step) h.1,
    read32_lem w step h.2,
  )

  -- Two keys that are equal name the same thing, for the keys of user ids, profiles, tenants' metadata,
  -- runners with their offset, locks, metadata and workers, workflows' instances and crowds, temporary
  -- values, output notifications and the bit-sliced index: no key of one of these kinds collides with
  -- another of its kind or of another of these kinds. The keys of id mappings, of queues, of shards of
  -- bitmaps and of the bounds of scans are not among them.
  pub key_of-injective : (m n : Name) → Fits m → Fits n → key_of m ≡ key_of n → m ≡ n
  key_of-injective m n hm hn e =
      let same : some m ≡ some n =
        sym (name_of-key_of m hm) ∙ (ap name_of e ∙ name_of-key_of n hn) in
      cc

  -- An id mapping's key runs its type, target and value together: moving bytes from the type to
  -- the target, or from the target to the value, gives the key of another mapping.
  pub mapping_key_collides :
      (tid : ℕ) (a b c d : Bytes)
      → (mapping_key W tid (record { value = d; type = a ++ b }) c
          ≡ mapping_key W tid (record { value = d; type = a }) (b ++ c))
        × (mapping_key W tid (record { value = d; type = a }) (b ++ c)
            ≡ mapping_key W tid (record { value = c ++ d; type = a }) b)
  unfolding mapping_key
  mapping_key_collides tid a b c d = (simp append_assoc, simp append_assoc)

  -- The consumer is read back from the committed offset's key of a partition.
  pub decode_consumer_roundtrip :
      (id partition : ℕ) (consumer : Bytes)
      → decode_consumer_from_committed_offset_key
          (committed_offset_key (partition_key W id partition) consumer)
        ≡ some consumer
  unfolding decode_consumer_from_committed_offset_key committed_offset_key partition_key
  decode_consumer_roundtrip id partition consumer =
      let head = (W.uint64_to_bytes id ++ W.uint32_to_bytes partition) in
      let size : length head ≡ 12 = omega (
        arith,
        length-append (W.uint64_to_bytes id) (W.uint32_to_bytes partition),
        W.length-uint64 id,
        W.length-uint32 partition,
      ) in
      let whole =
        drop-append 13 (head ++ 3 ∷ []) consumer
          (omega (arith, size, length-append head (3 ∷ []))) in
      let rest = rw (append_assoc head (3 ∷ []) consumer) at whole in
      ground (arith, rest, size, length-append head (3 ∷ consumer))
