-- ===== src/Util.antt =====
-- pkg/util: bitmaps of user ids.
pub mod Roaring
pub mod Bitmap
pub mod LruCache
