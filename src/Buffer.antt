-- ===== src/Buffer.antt =====
-- include/dandb/buffer and src/buffer: the pool of pages in memory.
pub mod Page
pub mod LruReplacer
pub mod Disk
pub mod BufferPool
