-- ===== src/Storage/Kv/Tests.antt =====
-- Runs of the key-value handlers on a store in memory.
use busybee.Prelude.{bytes_equal, ◌≡◌, refl, true, false, some, List, [], ◌∷◌, Bytes}
use busybee.Prelude.Int.{pos}
use busybee.Storage.Engine.Memory.{Memory, memory, nothing, put_in}
use busybee.Storage.Wire.BigEndian.{big_endian}
use busybee.Storage.Reply.{IdValue, id_set, ids, Reply, boolean, id_range, reply, unchanged}
use busybee.Storage.Engine.{done}
use busybee.Util.Roaring.Lists.{lists, sort, insert}
use busybee.Storage.Codec.Words.{ids_codec}
use busybee.Storage.Kv.Mapping.{update_mapping, put_value, put_values}
use busybee.Storage.Kv.Mapping.Laws.{value_of, update_mapping_merges}
use busybee.Storage.Kv.Bitmaps.{bmrange}
use busybee.Storage.Kv.Bitmaps.Laws.{bmrange_takes}
use busybee.Storage.Condition.{Cmp, match_condition, match_condition_group, match_condition_groups}
use busybee.Storage.Kv.Conditional.{SetIfRequest, set_if}
use busybee.Storage.Kv.Conditional.Laws.{set_if_once, IsInitial, IsRefusedWrite}
use busybee.Storage.Kv.Ids.{alloc_id}
use busybee.Storage.Kv.Ids.Ranges.{Counts, absent, alloc_ids_ascending, response_of, ranges}
use busybee.Storage.Kv.Lock.{LockRequest, lock, unlock, allow_lock}
use busybee.Storage.Kv.Lock.Lease.{held, encode}
use busybee.Storage.Kv.Lock.Exclusion.{
  lock_refines, run_excludes, acquire, release, apply, IsRefused,
}
use busybee.Storage.Engine.{each}
use busybee.Prelude.{All, map, is_empty, arith}

abbrev k : Bytes
k = 1 ∷ 2 ∷ []

abbrev alice : Bytes
alice = 10 ∷ []

abbrev bob : Bytes
bob = 20 ∷ []

-- requests carry their own key, which the handlers' log lines cut at 18 bytes
abbrev long_key : Bytes
long_key = 0 ∷ 0 ∷ 0 ∷ 0 ∷ 0 ∷ 0 ∷ 0 ∷ 0 ∷ 0 ∷ 0 ∷ 0 ∷ 0 ∷ 0 ∷ 0 ∷ 0 ∷ 0 ∷ 0 ∷ 1 ∷ 2 ∷ []

abbrev bob_until_200 : LockRequest
bob_until_200 = record { key = long_key; value = bob; expire_at = pos 200 }

abbrev held_by_alice : Memory
held_by_alice = put_in nothing k (encode big_endian (held (pos 100) alice))

abbrev held_by_bob : Memory
held_by_bob = put_in held_by_alice k (encode big_endian (held (pos 200) bob))

-- Alice's lease until 100 is over at 150, so Bob takes the lock.
lock_refines_example :
    (boolean true ≡ boolean true)
    × (some (held_by_bob k) ≡ some (encode big_endian (held (pos 200) bob)))
unfolding lock allow_lock memory big_endian bytes_equal
lock_refines_example =
    lock_refines memory big_endian (pos 150) k k bob_until_200 (held (pos 100) alice) held_by_alice
      held_by_bob (reply 11 (pos 11) (boolean true)) (ground arith) refl refl

-- Before 100 Bob can neither lock nor unlock.
run_excludes_example :
    All IsRefused (unchanged (boolean false) ∷ unchanged (boolean false) ∷ [])
    × (some (held_by_alice k) ≡ some (encode big_endian (held (pos 100) alice)))
unfolding each apply lock unlock allow_lock memory big_endian bytes_equal
run_excludes_example =
    run_excludes memory big_endian (pos 100) alice k
      (acquire (pos 50) bob_until_200 ∷ release bob ∷ []) held_by_alice held_by_alice
      (unchanged (boolean false) ∷ unchanged (boolean false) ∷ []) (ground arith)
      ((refl, ground arith), (ground arith, tt)) refl refl

abbrev if_missing : Bytes → SetIfRequest
if_missing v = record {
  value = v;
  conditions = (record { cmp = Cmp.not_exists; value = [] } ∷ []) ∷ [];
  ttl = pos 0;
}

if_missing-IsInitial : (v : Bytes) → is_empty v ≡ false → IsInitial (if_missing v)
if_missing-IsInitial v h = record { operand = []; guard = refl; value = h; lasts = refl }

-- of Alice's and Bob's first writes Alice's stays
set_if_once_example :
    (r : Reply) × (rs : List Reply) × ((reply 0 (pos 0) (boolean true)
        ∷ unchanged (boolean false)
        ∷ [])
      ≡ r ∷ rs)
    × (r.response ≡ boolean true)
    × All IsRefusedWrite rs
    × (some (put_in nothing k alice k) ≡ some alice)
unfolding each set_if match_condition_groups match_condition_group match_condition memory
    bytes_equal
set_if_once_example =
    set_if_once memory k (if_missing alice) (if_missing bob ∷ []) nothing (put_in nothing k alice)
      (reply 0 (pos 0) (boolean true) ∷ unchanged (boolean false) ∷ [])
      (if_missing-IsInitial alice refl, (if_missing-IsInitial bob refl, tt)) refl refl

-- two allocations of 5 and 3 ids on a fresh counter
alloc_ids_ascending_example :
    (map response_of (reply 6 (pos 6) (id_range 1 5) ∷ reply 6 (pos 6) (id_range 6 8) ∷ [])
      ≡ ranges 0 (5 ∷ 3 ∷ []))
    × Counts memory big_endian
        (put_in (put_in nothing k (big_endian.uint32_to_bytes 5)) k (big_endian.uint32_to_bytes 8))
        k
        8
unfolding each alloc_id memory big_endian bytes_equal
alloc_ids_ascending_example =
    alloc_ids_ascending memory big_endian k (5 ∷ 3 ∷ []) 0 nothing
      (put_in (put_in nothing k (big_endian.uint32_to_bytes 5)) k (big_endian.uint32_to_bytes 8))
      (reply 6 (pos 6) (id_range 1 5) ∷ reply 6 (pos 6) (id_range 6 8) ∷ []) (absent refl refl)
      (ground arith) (ground arith) refl

-- the name 1 is stored with the value 7, and is given the value 8
abbrev old_ids : List IdValue
old_ids = record { value = 7 ∷ []; type = 1 ∷ [] } ∷ []

abbrev new_ids : List IdValue
new_ids = record { value = 8 ∷ []; type = 1 ∷ [] } ∷ []

abbrev with_ids : List IdValue → Memory
with_ids vs = put_in nothing k (ids_codec.marshal vs)

update_mapping_merges_example :
    (set : List IdValue) × (some (put_in (with_ids old_ids) k (ids_codec.marshal new_ids) k)
      ≡ some (ids_codec.marshal set))
    × (id_set new_ids ≡ id_set set)
    × (value_of (1 ∷ []) set ≡ some (8 ∷ []))
unfolding update_mapping put_value put_values memory ids_codec bytes_equal
update_mapping_merges_example =
    update_mapping_merges memory ids_codec k (1 ∷ []) new_ids old_ids (with_ids old_ids)
      (put_in (with_ids old_ids) k (ids_codec.marshal new_ids)) (reply 6 (pos 6) (id_set new_ids))
      refl refl refl

abbrev with_bitmap : Memory
with_bitmap = put_in nothing k (5 ∷ 2 ∷ 9 ∷ [])

-- from 3 on, one id at most
bmrange_takes_example : bmrange memory lists k 3 0 with_bitmap ≡ done (ids (5 ∷ []), with_bitmap)
unfolding memory lists sort insert bytes_equal
bmrange_takes_example = bmrange_takes memory lists k 3 0 (5 ∷ 2 ∷ 9 ∷ []) with_bitmap refl refl
