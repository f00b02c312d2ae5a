-- ===== src/Storage/Kv/Scan/Bounds.antt =====
-- What the entries are that `scan` of pkg/storage/cmd_handler_kv.go gives out.
use busybee.Prelude.{ℕ, ◌+◌, ◌≤◌, ◌≡◌, some, List, [], ◌∷◌, Bytes, length, ◌<◌, ◌⊎◌, get_elem?}
use busybee.Storage.Wire.{Wire}
use busybee.Storage.Queue.Items.{max_bytes_in_buf}

-- the entries as they are given out
abbrev pub decoded : (Bytes → Bytes) → List (Bytes × Bytes) → List (Bytes × Bytes)
decoded f [] = []
decoded f ((k, v) ∷ es) = (f k, v) ∷ decoded f es

-- what the buffer holds after pairs were written to it
abbrev pub index_after : ℕ → List (Bytes × Bytes) → ℕ
index_after w [] = w
index_after w ((k, v) ∷ ps) = index_after (w + length k + length v) ps

-- for each value the buffer had room before its key was written
abbrev pub Fit : ℕ → List (Bytes × Bytes) → Type 0
Fit w [] = Unit
Fit w ((k, v) ∷ ps) = (w + length v < max_bytes_in_buf) × Fit (w + length k + length v) ps

-- The pairs are all there are, or the limit is reached, or the next value does not fit.
abbrev pub Stops : ℕ → ℕ → List (Bytes × Bytes) → List (Bytes × Bytes) → Type 0
Stops w limit pairs all =
    (pairs ≡ all)
    ⊎ (length pairs ≡ limit)
    ⊎ ((k v : Bytes) × (get_elem? all (length pairs) ≡ some (k, v))
        × (max_bytes_in_buf ≤ index_after w pairs + length v))

-- with `n` pairs before
StopsFrom : ℕ → ℕ → ℕ → List (Bytes × Bytes) → List (Bytes × Bytes) → Type 0
StopsFrom w limit n pairs all =
    (pairs ≡ all)
    ⊎ (n + length pairs ≡ limit)
    ⊎ ((k v : Bytes) × (get_elem? all (length pairs) ≡ some (k, v))
        × (max_bytes_in_buf ≤ index_after w pairs + length v))
