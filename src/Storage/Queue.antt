-- ===== src/Storage/Queue.antt =====
-- pkg/storage/cmd_handler_queue.go: queues and their consumer groups.
pub mod Group
pub mod Offsets
pub mod Attributes
pub mod Items
mod Tests
