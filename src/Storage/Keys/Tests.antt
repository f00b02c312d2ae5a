-- ===== src/Storage/Keys/Tests.antt =====
-- Keys and scans with concrete numbers.
use busybee.Prelude.{◌≡◌, refl, false, [], ◌∷◌, arith}
use busybee.Storage.Wire.BigEndian.{big_endian}
use busybee.Storage.Keys.{queue_item_key, partition_key}
use busybee.Storage.Keys.Layout.{Name, runner_worker, key_of-injective}
use busybee.Storage.Keys.Ranges.{is_scanned, committed}
use busybee.Storage.Keys.Queues.{of_partition, key_of_record, item_scan_exact}

abbrev a_worker : Name
a_worker = runner_worker 1 2 3 4

key_of-injective_example : a_worker ≡ a_worker
key_of-injective_example =
    key_of-injective big_endian a_worker a_worker (ground arith) (ground arith) refl

-- a committed offset of partition 2 is not among the items 10 to 19 of partition 1
item_scan_exact_example :
    is_scanned
      (queue_item_key big_endian (partition_key big_endian 7 1) 10)
      (queue_item_key big_endian (partition_key big_endian 7 1) 20)
      (key_of_record big_endian 7 (of_partition 2 (committed (9 ∷ []))))
    ≡ false
item_scan_exact_example =
    item_scan_exact big_endian 7 1 10 20 (of_partition 2 (committed (9 ∷ []))) (omega arith)
      (omega arith) (omega arith) (omega arith, tt)
