-- ===== src/Core.antt =====
-- include/dandb/core: constants, statuses and results, and the little-endian helpers; and the models
-- of buffers and of methods that the other parts share.
pub mod Constants
pub mod Status
pub mod Memory
pub mod Helper
pub mod Exec
