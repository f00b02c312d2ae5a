-- ===== src/Storage.antt =====
-- pkg/storage
pub mod Engine
pub mod Wire
pub mod Reply
pub mod Condition
pub mod Codec
pub mod Keys
pub mod BitmapBatch
pub mod Kv
pub mod Queue
pub mod QueueBatch
pub mod ReadBatch
pub mod Workflow
