-- ===== src/Storage.antt =====
-- src/storage: pages in a file.
pub mod File
pub mod DiskManager
