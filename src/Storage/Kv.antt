-- ===== src/Storage/Kv.antt =====
-- pkg/storage/cmd_handler_kv.go: the write handlers over single keys. `getValueByGroup` and
-- `getStoreByGroup` reach the engine of the shard's group, which is the store here.
pub mod Conditional
pub mod Ids
pub mod Lock
mod Tests
pub mod Mapping
pub mod Bitmaps
pub mod Scan
