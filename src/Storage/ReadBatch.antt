-- ===== src/Storage/ReadBatch.antt =====
-- pkg/storage/batch_read.go: reads of one shard, carried out together. `MGet` of the engine is a
-- parameter, and so is the encoding of a response.
use busybee.Prelude.{
  ℕ, Bool, true, false, not, Option, none, some, List, [], ◌∷◌, ◌++◌, Bytes, ◌==◌, ◌&&◌, map,
  if◌then◌else◌,
}
use busybee.Storage.Engine.{Outcome, done, fatal}

pub record BatchReader : Type 0 where
  pub shard : ℕ
  pub group : ℕ
  pub keys : List Bytes

-- whether the request is a read, and the reader; another shard ends the process
unfoldable pub add_read : ℕ → ℕ → Bool → Bytes → BatchReader → Outcome (Bool × BatchReader)
add_read shard group is_get key b =
    if not (b.shard == 0) && not (b.shard == shard)
    then fatal
    else (if is_get
        then done (true, record b { shard = shard; group = group; keys = b.keys ++ (key ∷ []) })
        else done (false, b))

-- `Execute`: a response for each value, or the error
unfoldable pub execute_reads :
    (ℕ → List Bytes → Option (List Bytes)) → (Bytes → Bytes) → BatchReader → Option (List Bytes)
execute_reads mget marshal b = elim (mget b.group b.keys) [
  | none ↦ none
  | some values ↦ some (map marshal values)
]

unfoldable pub reset_reader : BatchReader → BatchReader
reset_reader b = record b { shard = 0; keys = [] }
