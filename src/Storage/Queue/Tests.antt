-- ===== src/Storage/Queue/Tests.antt =====
-- Runs of the consumer group of a queue.
use busybee.Prelude.{Bytes, ◌++◌, none, bytes_equal}
use busybee.Storage.Engine.{each}
use busybee.Prelude.{◌+◌, take, length, ◌<◌}
use busybee.Storage.Engine.{done}
use busybee.Storage.Queue.Items.{Ranges, items_after, total_size}
use busybee.Storage.Queue.Items.Laws.{size_before_last, items_after_bounded}
use busybee.Storage.Kv.Scan.{scan}
use busybee.Storage.Engine.Memory.{Memory, memory, nothing, put_in}
use busybee.Storage.Wire.BigEndian.{big_endian}
use busybee.Storage.Reply.{unset, unchanged}
use busybee.Storage.Keys.{committed_offset_key}
use busybee.Storage.Queue.Offsets.{
  queue_commit, load_last_completed_offset, must_put_completed_offset,
}
use busybee.Storage.Queue.Offsets.Commits.{Committed, missing, commits_keep_highest}
use busybee.Prelude.{ℕ, ◌≡◌, refl, some, List, [], ◌∷◌, arith}
use busybee.Prelude.Int.{ℤ, pos}
use busybee.Storage.Queue.Group.{
  Partition, QueueState, maybe_remove_timeout_consumers, rebalance_consumers, joined, join_group,
  enter, give_all, give_range, owned_from,
}
use busybee.Storage.Queue.Group.Fencing.{join_fences}
use busybee.Storage.Queue.Group.Assignment.{joiner_starves}

abbrev part : ℕ → ℕ → Partition
part consumer version = record { consumer = consumer; version = version; last_fetch_ts = pos 0 }

abbrev group : ℕ → List Partition → QueueState
group consumers ps = record {
  partitions = 4;
  consumers = consumers;
  states = ps;
  timeout = pos 100;
  max_alive = pos 0;
  clean_batch = 0;
}

abbrev one_consumer : QueueState
one_consumer = group 1 (part 0 0 ∷ part 0 0 ∷ part 0 0 ∷ part 0 0 ∷ [])

abbrev two_consumers : QueueState
two_consumers = group 2 (part 0 0 ∷ part 0 0 ∷ part 1 1 ∷ part 1 1 ∷ [])

-- the third consumer takes part of the first's, and none of its own
abbrev three_consumers : QueueState
three_consumers = group 3 (part 0 0 ∷ part 0 0 ∷ part 1 1 ∷ part 1 1 ∷ [])

join_fences_example : (part 1 1).consumer ≡ (part 1 1).consumer
unfolding join_group enter maybe_remove_timeout_consumers rebalance_consumers give_all give_range
    owned_from
join_fences_example =
    join_fences (pos 50) two_consumers three_consumers (joined 2 []) 2 (part 1 1) (part 1 1)
      (ground arith) refl refl refl refl

joiner_starves_example :
    (st' : QueueState) × (join_group (pos 50) one_consumer ≡ some (joined 1 [], st'))
joiner_starves_example =
    joiner_starves (pos 50) one_consumer refl (ground arith) (omega arith) (omega arith)
      (omega arith)

abbrev src : Bytes
src = 1 ∷ []

abbrev consumer : Bytes
consumer = 9 ∷ []

abbrev commits : List (ℤ × ℕ)
commits = (pos 1, 5) ∷ (pos 2, 3) ∷ []

abbrev committed_5 : Memory
committed_5 =
    put_in nothing (committed_offset_key src consumer)
      (big_endian.uint64_to_bytes 5 ++ big_endian.int64_to_bytes (pos 1))

-- the second commit is late
commits_keep_highest_example : Committed memory big_endian committed_5 src consumer (some 5)
unfolding each queue_commit load_last_completed_offset must_put_completed_offset
    committed_offset_key memory big_endian bytes_equal
commits_keep_highest_example =
    commits_keep_highest memory big_endian src consumer commits none nothing committed_5
      (unchanged unset ∷ unchanged unset ∷ []) (missing refl) (ground arith) refl

-- a scan that finds two items, whatever the range
abbrev two_items : Ranges Memory
two_items = record {
  scan = λ s from to. some ((1 ∷ [], 7 ∷ 8 ∷ []) ∷ (2 ∷ [], 9 ∷ []) ∷ []);
  range_delete = λ s from to. some s;
}

-- 2 bytes are enough for the first item
items_after_bounded_example :
    (items : List Bytes) × (items_after memory two_items big_endian src 0 4 10 2 nothing
      ≡ done (items, nothing))
    × (items ≡ take (length items) ((7 ∷ 8 ∷ []) ∷ (9 ∷ []) ∷ []))
    × (0 + total_size items < 5242880)
    × (size_before_last items < 2)
items_after_bounded_example =
    items_after_bounded memory two_items big_endian src 0 4 10 2 nothing
      ((1 ∷ [], 7 ∷ 8 ∷ []) ∷ (2 ∷ [], 9 ∷ []) ∷ []) refl (omega arith)

abbrev long_key : Bytes
long_key = 1 ∷ 2 ∷ 3 ∷ 4 ∷ 5 ∷ 6 ∷ 7 ∷ 8 ∷ 9 ∷ []

abbrev both_items : List (Bytes × Bytes)
both_items = (1 ∷ [], 7 ∷ 8 ∷ []) ∷ (2 ∷ [], 9 ∷ []) ∷ []
