-- ===== src/Storage/Kv/Ids.antt =====
-- `allocID` and `resetID` of pkg/storage/cmd_handler_kv.go: a counter of user ids in `uint32`.
use busybee.Prelude.{ℕ, ◌+◌, ◌%◌, Option, some, Bytes, is_empty, length, if◌then◌else◌}
use busybee.Prelude.Int.{pos}
use busybee.Storage.Engine.{DataStorage, M, pure, load, save, unless_panic, ◌>>=◌, ◌>>◌}
use busybee.Storage.Wire.{Wire, u32_mod}
use busybee.Storage.Reply.{Reply, empty, id_range, reply}
pub mod Ranges

module _ {S : Type 0} (D : DataStorage S) (W : Wire) where
  -- a stored value that is not four bytes long ends in `log.Fatalf`
  unfoldable pub alloc_id : Bytes → ℕ → M S Reply
  alloc_id key batch = do
    value ← load D key
    id ← unless_panic (if is_empty value then some 0 else W.bytes_to_uint32 value)
    let start = (id + 1) % u32_mod
    let end = (id + batch % u32_mod) % u32_mod
    save D key (W.uint32_to_bytes end)
    let written = length key + 4
    pure (reply written (pos written) (id_range start end))

  unfoldable pub reset_id : Bytes → ℕ → M S Reply
  reset_id key start_with = do
    save D key (W.uint32_to_bytes (start_with % u32_mod))
    let written = length key + 4
    pure (reply written (pos written) empty)
