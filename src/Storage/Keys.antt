-- ===== src/Storage/Keys.antt =====
-- pkg/storage/keys.go: the layout of every key. A key that the source fills byte by byte is the
-- concatenation of its parts here; `bytes_of_uint64` is `goetty.Uint64ToBytesTo`.
pub mod Layout
pub mod Queues
pub mod Ranges
mod Tests
use busybee.Prelude.{
  ℕ, ◌+◌, ◌%◌, [], ◌∷◌, ◌++◌, Bytes, drop, Option, some, none, leb, length, if◌then◌else◌,
}
use busybee.Prelude.Int.{ℤ}
use busybee.Storage.Wire.{Wire, u64_mod}
use busybee.Storage.Reply.{IdValue}

abbrev pub mapping_id_prefix : ℕ
mapping_id_prefix = 0

abbrev pub mapping_prefix : ℕ
mapping_prefix = 1

abbrev pub profile_prefix : ℕ
profile_prefix = 2

abbrev pub tenant_metadata_prefix : ℕ
tenant_metadata_prefix = 3

abbrev pub tenant_runner_prefix : ℕ
tenant_runner_prefix = 4

abbrev pub tenant_runner_metadata_prefix : ℕ
tenant_runner_metadata_prefix = 5

abbrev pub tenant_runner_worker_prefix : ℕ
tenant_runner_worker_prefix = 6

abbrev pub tenant_runner_lock_key_field : ℕ
tenant_runner_lock_key_field = 7

abbrev pub tenant_runner_offset_field : ℕ
tenant_runner_offset_field = 8

abbrev pub workflow_current_prefix : ℕ
workflow_current_prefix = 9

abbrev pub workflow_history_prefix : ℕ
workflow_history_prefix = 10

abbrev pub workflow_crowd_prefix : ℕ
workflow_crowd_prefix = 11

abbrev pub temp_prefix : ℕ
temp_prefix = 12

abbrev pub output_prefix : ℕ
output_prefix = 13

abbrev pub bsi_key_prefix : ℕ
bsi_key_prefix = 14

abbrev pub queue_max_offset_field : ℕ
queue_max_offset_field = 0

abbrev pub queue_removed_offset_field : ℕ
queue_removed_offset_field = 1

abbrev pub queue_item_field : ℕ
queue_item_field = 2

abbrev pub queue_committed_field : ℕ
queue_committed_field = 3

abbrev pub queue_kv_field : ℕ
queue_kv_field = 4

abbrev pub queue_state_field : ℕ
queue_state_field = 5

abbrev pub queue_meta_field : ℕ
queue_meta_field = 6

module _ (W : Wire) where
  -- `now` is `time.Now().Unix()`
  unfoldable pub temp_key : ℤ → Bytes → Bytes
  temp_key now value = temp_prefix ∷ (W.int64_to_bytes now ++ value)

  unfoldable pub bsi_key : ℕ → ℕ → ℕ → Bytes → Bytes
  bsi_key tid instance_id wid step =
      bsi_key_prefix
      ∷ (W.uint64_to_bytes tid
          ++ (W.uint64_to_bytes instance_id ++ (W.uint32_to_bytes wid ++ step)))

  unfoldable pub output_notify_key : ℕ → ℤ → Bytes → Bytes
  output_notify_key tid ts value =
      output_prefix ∷ (W.uint64_to_bytes tid ++ (W.int64_to_bytes ts ++ value))

  -- the unexported `outputNotifyKey`
  unfoldable pub output_notify_bound : ℕ → ℤ → Bytes
  output_notify_bound tid ts = output_prefix ∷ (W.uint64_to_bytes tid ++ W.int64_to_bytes ts)

  unfoldable pub partition_key : ℕ → ℕ → Bytes
  partition_key id partition = W.uint64_to_bytes id ++ W.uint32_to_bytes partition

  -- the exported `QueueKVKey`
  unfoldable pub tenant_queue_kv_key : ℕ → Bytes → Bytes
  tenant_queue_kv_key id src = W.uint64_to_bytes id ++ (queue_kv_field ∷ src)

  unfoldable pub tenant_metadata_key : ℕ → Bytes
  tenant_metadata_key id = tenant_metadata_prefix ∷ W.uint64_to_bytes id

  unfoldable pub workflow_current_instance_key : ℕ → Bytes
  workflow_current_instance_key id = workflow_current_prefix ∷ W.uint64_to_bytes id

  unfoldable pub workflow_history_instance_key : ℕ → ℕ → Bytes
  workflow_history_instance_key wid instance_id =
      workflow_history_prefix ∷ (W.uint64_to_bytes wid ++ W.uint64_to_bytes instance_id)

  unfoldable pub shard_bitmap_key : Bytes → ℕ → Bytes
  shard_bitmap_key value index = value ++ W.uint32_to_bytes index

  unfoldable pub workflow_crowd_shard_key : ℕ → ℕ → ℕ → Bytes
  workflow_crowd_shard_key wid instance_id version =
      workflow_crowd_prefix
      ∷ (W.uint64_to_bytes wid ++ (W.uint64_to_bytes instance_id ++ W.uint32_to_bytes version))

  unfoldable pub tenant_runner_key : ℕ → ℕ → Bytes
  tenant_runner_key tid runner =
      tenant_runner_prefix ∷ (W.uint64_to_bytes tid ++ W.uint64_to_bytes runner)

  unfoldable pub tenant_runner_offset_key : ℕ → ℕ → Bytes
  unfolding tenant_runner_key
  tenant_runner_offset_key tid runner =
      tenant_runner_key tid runner ++ (tenant_runner_offset_field ∷ [])

  unfoldable pub tenant_runner_lock_key : ℕ → ℕ → Bytes → Bytes
  unfolding tenant_runner_key
  tenant_runner_lock_key tid runner lock_key =
      tenant_runner_key tid runner ++ (tenant_runner_lock_key_field ∷ lock_key)

  unfoldable pub tenant_runner_metadata_key : ℕ → ℕ → Bytes
  unfolding tenant_runner_key
  tenant_runner_metadata_key tid runner =
      tenant_runner_key tid runner ++ (tenant_runner_metadata_prefix ∷ [])

  unfoldable pub tenant_runner_worker_min_key : ℕ → ℕ → Bytes
  unfolding tenant_runner_key
  tenant_runner_worker_min_key tid runner =
      tenant_runner_key tid runner ++ (tenant_runner_worker_prefix ∷ [])

  unfoldable pub tenant_runner_worker_max_key : ℕ → ℕ → Bytes
  unfolding tenant_runner_key
  tenant_runner_worker_max_key tid runner =
      tenant_runner_key tid runner ++ ((tenant_runner_worker_prefix + 1) ∷ [])

  unfoldable pub tenant_runner_worker_instance_min_key : ℕ → ℕ → ℕ → Bytes
  unfolding tenant_runner_key
  tenant_runner_worker_instance_min_key tid runner wid =
      tenant_runner_key tid runner ++ (tenant_runner_worker_prefix ∷ W.uint64_to_bytes wid)

  -- `wid + 1` wraps in `uint64`
  unfoldable pub tenant_runner_worker_instance_max_key : ℕ → ℕ → ℕ → Bytes
  unfolding tenant_runner_key
  tenant_runner_worker_instance_max_key tid runner wid =
      tenant_runner_key tid runner
      ++ (tenant_runner_worker_prefix ∷ W.uint64_to_bytes ((wid + 1) % u64_mod))

  unfoldable pub tenant_runner_worker_key : ℕ → ℕ → ℕ → ℕ → Bytes
  unfolding tenant_runner_key
  tenant_runner_worker_key tid runner wid worker =
      tenant_runner_key tid runner
      ++ (tenant_runner_worker_prefix ∷ (W.uint64_to_bytes wid ++ W.uint32_to_bytes worker))

  unfoldable pub mapping_id_key : ℕ → ℕ → Bytes
  mapping_id_key tenant_id user_id =
      mapping_id_prefix ∷ (W.uint64_to_bytes tenant_id ++ W.uint32_to_bytes user_id)

  unfoldable pub mapping_key : ℕ → IdValue → Bytes → Bytes
  mapping_key tenant_id source to =
      mapping_prefix ∷ (W.uint64_to_bytes tenant_id ++ (source.type ++ (to ++ source.value)))

  unfoldable pub profile_key : ℕ → ℕ → Bytes
  profile_key tenant_id uid =
      profile_prefix ∷ (W.uint64_to_bytes tenant_id ++ W.uint32_to_bytes uid)

  unfoldable pub queue_item_key : Bytes → ℕ → Bytes
  queue_item_key src offset = src ++ (queue_item_field ∷ W.uint64_to_bytes offset)

  -- the exported `QueueMetaKey`
  unfoldable pub partition_meta_key : ℕ → ℕ → Bytes
  unfolding partition_key
  partition_meta_key id partition = partition_key id partition ++ (queue_meta_field ∷ [])

  -- the exported `QueueStateKey`
  unfoldable pub tenant_queue_state_key : ℕ → Bytes → Bytes
  tenant_queue_state_key id group = W.uint64_to_bytes id ++ (queue_state_field ∷ group)

  unfoldable pub queue_kv_key : Bytes → ℕ → Bytes → Bytes
  queue_kv_key prefix id src = prefix ++ (W.uint64_to_bytes id ++ (queue_kv_field ∷ src))

unfoldable pub max_offset_key : Bytes → Bytes
max_offset_key src = src ++ (queue_max_offset_field ∷ [])

unfoldable pub removed_offset_key : Bytes → Bytes
removed_offset_key src = src ++ (queue_removed_offset_field ∷ [])

unfoldable pub queue_meta_key : Bytes → Bytes
queue_meta_key src = src ++ (queue_meta_field ∷ [])

unfoldable pub queue_state_key : Bytes → Bytes → Bytes
queue_state_key src group = src ++ (queue_state_field ∷ group)

unfoldable pub committed_offset_key : Bytes → Bytes → Bytes
committed_offset_key src consumer = src ++ (queue_committed_field ∷ consumer)

-- `src[13:]` panics on a shorter key
unfoldable pub decode_consumer_from_committed_offset_key : Bytes → Option Bytes
decode_consumer_from_committed_offset_key src =
    if leb 13 (length src) then some (drop 13 src) else none

unfoldable pub consumer_start_key : Bytes → Bytes
consumer_start_key src = src ++ (queue_committed_field ∷ [])

unfoldable pub consumer_end_key : Bytes → Bytes
consumer_end_key src = src ++ ((queue_committed_field + 1) ∷ [])
