-- ===== src/Storage/BitmapBatch/Tests.antt =====
-- Batches of bitmap requests on a store in memory.
use busybee.Prelude.{ℕ, ◌≡◌, ◌≢◌, refl, some, List, [], ◌∷◌, ◌||◌, Bytes, bytes_equal, arith}
use busybee.Util.Roaring.{is_in, xor}
use busybee.Util.Roaring.Lists.{lists}
use busybee.Storage.Engine.{put}
use busybee.Storage.Engine.Memory.{Memory, memory, nothing, put_in}
use busybee.Storage.BitmapBatch.{bm_add, bm_remove, run_batch, writes_of}
use busybee.Storage.BitmapBatch.Requests.{additions, in_some, additions_unite}
use busybee.Storage.BitmapBatch.Defects.{remove_toggles}

abbrev k1 : Bytes
k1 = 1 ∷ []

abbrev k2 : Bytes
k2 = 2 ∷ []

abbrev b : List ℕ
b = 5 ∷ 6 ∷ []

abbrev filled : Memory
filled = put_in nothing k1 b

additions_unite_example :
    (c : List ℕ) × (writes_of lists
        (run_batch lists memory filled (bm_add k1 0 (7 ∷ []) ∷ additions k1 ((8 ∷ []) ∷ [])))
      ≡ some (put k1 c ∷ []))
    × ((x : ℕ) → is_in x c ≡ (is_in x b || in_some x ((7 ∷ []) ∷ (8 ∷ []) ∷ [])))
unfolding memory lists bytes_equal
additions_unite_example =
    additions_unite lists memory filled k1 b (7 ∷ []) ((8 ∷ []) ∷ []) refl refl

-- 9 is not in the bitmap, so its removal adds it
remove_toggles_example :
    (c : List ℕ) × (writes_of lists (run_batch lists memory filled (bm_remove k1 (9 ∷ []) ∷ []))
      ≡ some (put k1 c ∷ []))
    × ((x : ℕ) → is_in x c ≡ xor (is_in x b) (is_in x (9 ∷ [])))
unfolding memory lists bytes_equal
remove_toggles_example = remove_toggles lists memory filled k1 b (9 ∷ []) refl refl

k1-k2 : k1 ≢ k2
k1-k2 e = ground arith
