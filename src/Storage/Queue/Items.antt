-- ===== src/Storage/Queue/Items.antt =====
-- The handlers of pkg/storage/cmd_handler_queue.go that give out, scan and delete the items of a
-- partition, and the whole of the one that joins a group.
pub mod Laws
use busybee.Prelude.{
  ℕ, zero, suc, ◌+◌, ◌-◌, ◌%◌, Bool, true, false, Option, none, some, List, [], ◌∷◌, ◌++◌, Bytes,
  is_empty, length, ltb, leb, ◌==◌, take, get_elem?, if◌then◌else◌,
}
use busybee.Prelude.Int.{ℤ}
use busybee.Storage.Engine.{DataStorage, M, pure, stop, save, fatal, done, ◌>>=◌, ◌>>◌}
use busybee.Storage.Wire.{Wire, u64_mod}
use busybee.Storage.Codec.{Codec}
use busybee.Storage.Keys.{
  queue_item_key, queue_state_key, queue_meta_key, removed_offset_key, partition_key,
}
use busybee.Storage.Queue.Group.{QueueState, JoinAnswer, wait, join_group, Admission, admit_fetch}
use busybee.Storage.Queue.Offsets.{
  load_max_offset, load_last_completed_offset, load_last_removed_offset, must_put_completed_offset,
}
use busybee.Storage.Queue.Attributes.{
  Attrs, load_queue_state, add_state_to_attr, add_to_write_batch, write_write_batch,
}

-- The ordered side of the engine: the entries that `Scan` visits from one key up to another, and
-- `RangeDelete`; `none` is an error.
pub record Ranges (S : Type 0) : Type 0 where
  pub scan : S → Bytes → Bytes → Option (List (Bytes × Bytes))
  pub range_delete : S → Bytes → Bytes → Option S

-- `defaultMaxBytesPerFetch` and `maxBytesInBuf`
abbrev pub default_max_bytes_per_fetch : ℕ
default_max_bytes_per_fetch = 1048576

abbrev pub max_bytes_in_buf : ℕ
max_bytes_in_buf = 5242880

unfoldable pub allow_write_to_buf : ℕ → ℕ → Bool
allow_write_to_buf write_index size = ltb (write_index + size) max_bytes_in_buf

abbrev pub max_bytes_of : ℕ → ℕ
max_bytes_of n = if n == 0 then default_max_bytes_per_fetch else n

-- The callback of `Scan` over the values: it stops when the buffer is full or when the size is
-- reached.
unfoldable pub take_items : ℕ → ℕ → ℕ → List (Bytes × Bytes) → List Bytes
unfolding allow_write_to_buf
take_items write_index max_bytes size [] = []
take_items write_index max_bytes size ((key, value) ∷ entries) =
    let rest = take_items (write_index + length value) max_bytes (size + length value) entries in
    if allow_write_to_buf write_index (length value)
    then (if leb max_bytes size then [] else value ∷ rest)
    else []

abbrev pub total_size : List Bytes → ℕ
total_size [] = 0
total_size (x ∷ xs) = length x + total_size xs

-- `rpcpb.QueueFetchResponse`
pub record FetchAnswer : Type 0 where
  pub removed : Bool
  pub last_offset : ℕ
  pub items : List Bytes

abbrev pub no_items : FetchAnswer
no_items = record { removed = false; last_offset = 0; items = [] }

-- `LastOffset` counts the items from the completed offset on
abbrev pub answer_of : ℕ → List Bytes → FetchAnswer
answer_of completed [] = no_items
answer_of completed (x ∷ xs) = record {
  removed = false;
  last_offset = (completed + length (x ∷ xs)) % u64_mod;
  items = x ∷ xs;
}

pub record FetchRequest : Type 0 where
  pub group : Bytes
  pub partition : ℕ
  pub consumer : ℕ
  pub version : ℕ
  pub completed_offset : ℕ
  pub count : ℕ
  pub max_bytes : ℕ

pub record ScanRequest : Type 0 where
  pub consumer : Bytes
  pub completed_offset : ℕ
  pub count : ℕ
  pub max_bytes : ℕ

abbrev or_zero : Option ℕ → ℕ
or_zero none = 0
or_zero (some n) = n

module _ {S : Type 0} (D : DataStorage S) (G : Ranges S) (W : Wire) where
  abbrev pub scan_range : Bytes → Bytes → M S (List (Bytes × Bytes))
  scan_range from to s = elim (G.scan s from to) [ none ↦ fatal | some es ↦ done (es, s) ]

  abbrev pub delete_range : Bytes → Bytes → M S (Unit {0})
  delete_range from to s = elim (G.range_delete s from to) [ none ↦ fatal | some t ↦ done (tt, t) ]

  -- the items from the one after an offset on
  unfoldable pub items_after : Bytes → ℕ → ℕ → ℕ → ℕ → M S (List Bytes)
  unfolding queue_item_key take_items
  items_after key write_index completed count max_bytes = do
    entries ←
        scan_range (queue_item_key W key ((completed + 1) % u64_mod))
          (queue_item_key W key ((completed + 1 + count) % u64_mod))
    pure (take_items write_index (max_bytes_of max_bytes) 0 entries)

  -- the offset where a fetch goes on: that of the request, of the group, or of the last deletion
  unfoldable pub fetch_offset : Bytes → FetchRequest → M S ℕ
  unfolding load_last_completed_offset load_last_removed_offset
  fetch_offset key req = do
    completed ←
        if req.completed_offset == 0
        then (do last ← load_last_completed_offset D W key req.group; pure (or_zero last))
        else pure req.completed_offset
    if completed == 0
        then (do removed ← load_last_removed_offset D W key; pure (or_zero removed))
        else pure completed

  -- `queueScan`: a consumer that is new starts after the highest offset; a gap that was deleted is a
  -- bug
  unfoldable pub queue_scan : ℤ → Bytes → ℕ → ScanRequest → M S FetchAnswer
  unfolding items_after load_max_offset load_last_completed_offset load_last_removed_offset
      must_put_completed_offset
  queue_scan now key write_index req = do
    last ← load_last_completed_offset D W key req.consumer
    elim last [
      | none ↦ do
        max ← load_max_offset D W key
        must_put_completed_offset D W now key req.consumer max
        pure no_items
      | some last_completed ↦
          let completed =
            if req.completed_offset == 0 then last_completed else req.completed_offset in
          do
            items ← items_after key write_index completed req.count req.max_bytes
            if length items == 0
                then (do
                  max ← load_max_offset D W key
                  removed ← load_last_removed_offset D W key
                  if ltb ((completed + 1) % u64_mod) (or_zero removed) then stop else pure no_items)
                else pure (answer_of completed items)
    ]

  -- `queueDelete`
  unfoldable pub queue_delete : ℤ → Bytes → ℕ → ℕ → M S (Unit {0})
  unfolding queue_item_key removed_offset_key
  queue_delete now key from to = do
    delete_range (queue_item_key W key from) (queue_item_key W key ((to + 1) % u64_mod))
    save D (removed_offset_key key) (W.uint64_to_bytes to ++ W.int64_to_bytes now)

module _ {S : Type 0} (D : DataStorage S) (G : Ranges S) (W : Wire) (C : Codec QueueState) where
  -- what an admitted fetch answers with
  abbrev pub admitted_answer : Bytes → ℕ → FetchRequest → Bool → M S FetchAnswer
  unfolding fetch_offset items_after
  admitted_answer key write_index req removed =
      if removed then pure (record no_items { removed = true }) else (do
        completed ← fetch_offset D G W key req
        items ← items_after D G W key write_index completed req.count req.max_bytes
        pure (answer_of completed items))

  -- the attributes after a fetch: the state, written if it was changed
  abbrev pub keep_state : Bytes → Bool → QueueState → Attrs → Attrs
  unfolding add_state_to_attr add_to_write_batch
  keep_state key changed st attrs =
      add_state_to_attr key (some st)
        (if changed then add_to_write_batch key (C.marshal st) attrs else attrs)

  -- `queueFetch` of a request whose key ends in 4 bytes of the partition; a shorter key panics
  unfoldable pub queue_fetch : ℤ → Bool → Bytes → FetchRequest → Attrs → M S (FetchAnswer × Attrs)
  unfolding load_queue_state write_write_batch admit_fetch queue_state_key queue_meta_key
  queue_fetch now last key req attrs =
      let state_key = queue_state_key (take (length key - 4) key) req.group in
      if ltb (length key) 4 then stop else (do
        loaded ← load_queue_state D C state_key (queue_meta_key key) attrs
        elim loaded [
          | none ↦ do
            attrs' ← write_write_batch D C last attrs
            pure (record no_items { removed = true }, attrs')
          | some st ↦
              let admission = admit_fetch now req.partition req.consumer req.version st in
              do
                answer ← admitted_answer key attrs.write_index req admission.removed
                attrs' ←
                    write_write_batch D C last
                      (keep_state state_key admission.changed admission.state attrs)
                pure (answer, attrs')
        ])

  -- the loop of `queueJoinGroup` that starts the group at an offset in each partition, from an index on
  unfoldable pub start_group : ℤ → (ℕ → Bytes) → Bytes → ℕ → ℕ → ℕ → M S (Unit {0})
  unfolding must_put_completed_offset
  start_group now key_of group offset i zero = pure tt
  start_group now key_of group offset i (suc n) = do
    must_put_completed_offset D W now (key_of i) group offset
    start_group now key_of group offset (i + 1) n

  -- what a joining consumer makes of the state; `none` is a panic
  abbrev pub joined_attrs : Bytes → QueueState → Attrs → JoinAnswer × QueueState → Attrs
  unfolding add_state_to_attr add_to_write_batch
  joined_attrs key st attrs (wait, st') = add_state_to_attr key (some st) attrs
  joined_attrs key st attrs (answer, st') = keep_state key true st' attrs

  -- `queueJoinGroup` of a group; a key shorter than 4 bytes panics. `encode` gives the data keys of the request's raft group
  unfoldable pub queue_join_group :
      ℤ → Bool → (Bytes → Bytes) → ℕ → Bytes → Bytes → Attrs → M S (JoinAnswer × Attrs)
  unfolding load_queue_state write_write_batch join_group queue_state_key queue_meta_key
      load_last_completed_offset load_last_removed_offset start_group partition_key
  queue_join_group now last encode id key group attrs =
      let state_key = queue_state_key (take (length key - 4) key) group in
      if ltb (length key) 4 then stop else (do
        loaded ← load_queue_state D C state_key (queue_meta_key key) attrs
        elim loaded [
          | none ↦ do attrs' ← write_write_batch D C last attrs; pure (wait, attrs')
          | some st ↦ do
            completed ← load_last_completed_offset D W key group
            elim completed [
              | some n ↦ pure tt
              | none ↦ do
                removed ← load_last_removed_offset D W key
                start_group now (λ i. encode (partition_key W id i)) group (or_zero removed) 0
                    st.partitions
            ]
            elim (join_group now st) [
              | none ↦ stop
              | some (answer, st') ↦ do
                attrs' ← write_write_batch D C last (joined_attrs state_key st attrs (answer, st'))
                pure (answer, attrs')
            ]
        ])
