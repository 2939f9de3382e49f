-- ===== src/Catalog.antt =====
-- include/dandb/catalog and src/catalog: the tables of a database and the file that lists them.
pub mod Cursor
pub mod Metadata
pub mod MetaWriter
pub mod MetaReader
pub mod MetaFile
pub mod TableManager
