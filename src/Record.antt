-- ===== src/Record.antt =====
-- include/dandb/record and src/record: rows, their encoding, and the pages and tables that hold them.
pub mod LogicalType
pub mod Schema
pub mod Value
pub mod Layout
pub mod Codec
pub mod SlottedPage
pub mod PagedTable
pub mod TableIterator
