-- ===== src/Storage/QueueBatch/Tests.antt =====
-- Items added to a partition that has offset 7, on a store in memory.
use busybee.Prelude.{ℕ, ◌≡◌, inr, refl, false, none, [], ◌∷◌, ◌++◌, Bytes, bytes_equal, arith}
use busybee.Prelude.Int.{pos}
use busybee.Storage.Engine.{done}
use busybee.Storage.Engine.Memory.{Memory, memory, nothing, put_in}
use busybee.Storage.Wire.BigEndian.{big_endian}
use busybee.Storage.Keys.{max_offset_key}
use busybee.Storage.QueueBatch.{QueueBatch, Batch, partition_batch, add_items}
use busybee.Storage.QueueBatch.Offsets.{StandsAt, numbered, add_items_consecutive}
use busybee.Storage.QueueBatch.Turns.{turn_after, turns_rotate}

abbrev queue_key : ℕ → Bytes
queue_key p = 9 ∷ (p ∷ [])

abbrev no_queue : QueueBatch
no_queue = record { metadata = none; pbs = []; next = 0 }

abbrev no_batch : Batch
no_batch = record { wb = []; entries = []; written_bytes = 0; changed_bytes = pos 0 }

abbrev filled : Memory
filled = put_in nothing (queue_key 1 ++ (0 ∷ [])) (big_endian.uint64_to_bytes 7)

add_items_consecutive_example :
    (qb' : QueueBatch) × (b' : Batch) × (add_items memory big_endian queue_key false 4 1
        ((5 ∷ []) ∷ (6 ∷ []) ∷ [])
        no_queue
        no_batch
        filled
      ≡ done ((qb', b'), filled))
    × (b'.entries ≡ [] ++ numbered memory big_endian (queue_key 1) 7 ((5 ∷ []) ∷ (6 ∷ []) ∷ []))
    × StandsAt memory big_endian 9 (partition_batch memory big_endian queue_key 1 qb') filled
unfolding memory bytes_equal max_offset_key
add_items_consecutive_example =
    add_items_consecutive memory big_endian queue_key 4 1 7 ((5 ∷ []) ∷ (6 ∷ []) ∷ []) no_queue
      no_batch filled (omega arith) (inr (refl, refl))

turns_rotate_example : (turn_after 3 2 0 ≡ 2) × (turn_after 3 3 0 ≡ 0)
turns_rotate_example = turns_rotate 2 2 (omega arith) (omega arith)
