-- ===== src/Catalog/MetaWriter.antt =====
-- src/catalog/TableManager.cpp: serializedSize, and the part of save that fills the buffer.
pub mod Pieces
pub mod Written
use relational_db_engine.Common.{ℕ, ◌+◌, ◌*◌, ◌%◌, List, [], ◌∷◌, length, replicate}
use relational_db_engine.Core.Constants.{u16_mod, u32_mod}
use relational_db_engine.Core.Status.{Result, ok, err, fault}
use relational_db_engine.Core.Memory.{Bytes}
use relational_db_engine.Core.Exec.{Exec, return, ◌>>◌}
use relational_db_engine.Record.LogicalType.{logical_type_code}
use relational_db_engine.Record.Schema.{Column}
use relational_db_engine.Record.Layout.{align_to}
use relational_db_engine.Record.Codec.{bool_byte}
use relational_db_engine.Catalog.Cursor.{
  Cursor, at_offset, skip, align, put_byte, or_byte, put_uint16, put_uint32, put_bytes,
}
use relational_db_engine.Catalog.Metadata.{TableMetadata, tables_meta_magic}

-- serializedSize: the sizes of a column and of a table, added up.
unfoldable pub add_column : ℕ → Column → ℕ
add_column size col = align_to (size + 1 + 1 + 2 + 2 + length col.name) 4

unfoldable pub add_columns : ℕ → List Column → ℕ
add_columns size [] = size
add_columns size (col ∷ cols) = add_columns (add_column size col) cols

unfoldable pub add_table : ℕ → TableMetadata → ℕ
add_table size table =
    align_to
      (add_columns (align_to (size + 4 + 4 + 4 + 1 + 3 + 2 + length table.name) 4)
        table.schema.columns)
      8

unfoldable pub add_tables : ℕ → List TableMetadata → ℕ
add_tables size [] = size
add_tables size (table ∷ tables) = add_tables (add_table size table) tables

abbrev pub serialized_size : List TableMetadata → ℕ
serialized_size tables = add_tables (4 + 4 + 4 + 4) tables

-- col.nullable + (col.primaryKey << 1)
abbrev pub column_flags : Column → ℕ
column_flags col = bool_byte col.nullable + bool_byte col.primary_key * 2

unfoldable pub write_column : Column → Exec Cursor (Unit {0})
write_column col = do
  put_byte (logical_type_code col.type)
  or_byte (column_flags col)
  put_uint16 col.string_capacity
  put_uint16 (length col.name % u16_mod)
  put_bytes col.name
  align 4

unfoldable pub write_columns : List Column → Exec Cursor (Unit {0})
write_columns [] = return tt
write_columns (col ∷ cols) = do write_column col; write_columns cols

unfoldable pub write_table : TableMetadata → Exec Cursor (Unit {0})
write_table table = do
  put_uint32 table.table_id
  put_uint32 table.first_page_id
  put_uint32 table.last_page_id
  put_byte (length table.schema.columns % 256)
  skip 3
  put_uint16 (length table.name % u16_mod)
  put_bytes table.name
  align 4
  write_columns table.schema.columns
  align 8

unfoldable pub write_tables : List TableMetadata → Exec Cursor (Unit {0})
write_tables [] = return tt
write_tables (table ∷ tables) = do write_table table; write_tables tables

unfoldable pub write_meta : ℕ → List TableMetadata → Exec Cursor (Unit {0})
write_meta next_table_id tables = do
  put_bytes tables_meta_magic
  put_uint32 next_table_id
  put_uint32 (length tables % u32_mod)
  skip 4
  write_tables tables

-- The cursor's bytes after a run.
abbrev pub bytes_after : Result (Unit {0}) × Cursor → Result Bytes
bytes_after (ok u, c) = ok c.bytes
bytes_after (err e, c) = err e
bytes_after (fault, c) = fault

-- The bytes that save writes.
unfoldable pub serialize : ℕ → List TableMetadata → Result Bytes
serialize next_table_id tables =
    bytes_after
      (write_meta next_table_id tables (at_offset (replicate (serialized_size tables) 0) 0))
