-- ===== src/Tests.antt =====
-- The theorems at concrete inputs.
mod Codec
mod Pages
mod Disk
mod Pool
mod Scan
mod Schemas
mod Catalog
mod Manager
mod Decode
mod Table
mod OtherRows
