-- ===== src/Catalog/MetaWriter/Pieces.antt =====
-- The metadata file as pieces, and the writers that write them.
use relational_db_engine.Common.{ℕ, ◌%◌, List, [], ◌∷◌, length, arith}
use relational_db_engine.Core.Constants.{u16_mod, u32_mod}
use relational_db_engine.Core.Helper.LittleEndian.{le_bytes}
use relational_db_engine.Record.LogicalType.{logical_type_code}
use relational_db_engine.Record.Schema.{Column}
use relational_db_engine.Catalog.Cursor.Pieces.{Piece, const, empty, ◌then◌, pad, zeros, Writes}
use relational_db_engine.Catalog.Cursor.Writing.{
  put_byte-Writes, or_byte-Writes, put_uint16-Writes, put_uint32-Writes, put_bytes-Writes,
  skip-Writes, align-Writes, Writes-then, Writes-nothing,
}
use relational_db_engine.Catalog.Metadata.{TableMetadata, tables_meta_magic}
use relational_db_engine.Catalog.MetaWriter.{
  column_flags, write_column, write_columns, write_table, write_tables, write_meta,
}

abbrev pub column_piece : Column → Piece
column_piece col =
    const (logical_type_code col.type ∷ [])
    then const (column_flags col ∷ [])
    then const (le_bytes 2 col.string_capacity)
    then const (le_bytes 2 (length col.name % u16_mod))
    then const col.name
    then pad 4

abbrev pub columns_piece : List Column → Piece
columns_piece [] = empty
columns_piece (col ∷ cols) = column_piece col then columns_piece cols

abbrev pub table_piece : TableMetadata → Piece
table_piece table =
    const (le_bytes 4 table.table_id)
    then const (le_bytes 4 table.first_page_id)
    then const (le_bytes 4 table.last_page_id)
    then const (length table.schema.columns % 256 ∷ [])
    then const (zeros 3)
    then const (le_bytes 2 (length table.name % u16_mod))
    then const table.name
    then pad 4
    then columns_piece table.schema.columns
    then pad 8

abbrev pub tables_piece : List TableMetadata → Piece
tables_piece [] = empty
tables_piece (table ∷ tables) = table_piece table then tables_piece tables

abbrev pub meta_piece : ℕ → List TableMetadata → Piece
meta_piece next tables =
    const tables_meta_magic
    then const (le_bytes 4 next)
    then const (le_bytes 4 (length tables % u32_mod))
    then const (zeros 4)
    then tables_piece tables

column-Writes : (col : Column) → Writes (write_column col) (column_piece col)
unfolding write_column
column-Writes col = Writes-then (put_byte-Writes _) (
    Writes-then (or_byte-Writes _) (
      Writes-then (put_uint16-Writes _) (
        Writes-then (put_uint16-Writes _)
          (Writes-then (put_bytes-Writes _) (align-Writes 4 (omega arith))))))

columns-Writes : (cols : List Column) → Writes (write_columns cols) (columns_piece cols)
unfolding write_columns
columns-Writes [] = Writes-nothing
columns-Writes (col ∷ cols) = Writes-then (column-Writes col) (columns-Writes cols)

table-Writes : (table : TableMetadata) → Writes (write_table table) (table_piece table)
unfolding write_table
table-Writes table = Writes-then (put_uint32-Writes _) (
    Writes-then (put_uint32-Writes _) (
      Writes-then (put_uint32-Writes _) (
        Writes-then (put_byte-Writes _) (
          Writes-then (skip-Writes 3) (
            Writes-then (put_uint16-Writes _) (
              Writes-then (put_bytes-Writes _) (
                Writes-then (align-Writes 4 (omega arith))
                  (Writes-then (columns-Writes _) (align-Writes 8 (omega arith))))))))))

tables-Writes : (tables : List TableMetadata) → Writes (write_tables tables) (tables_piece tables)
unfolding write_tables
tables-Writes [] = Writes-nothing
tables-Writes (table ∷ tables) = Writes-then (table-Writes table) (tables-Writes tables)

pub meta-Writes :
    (next : ℕ) (tables : List TableMetadata)
    → Writes (write_meta next tables) (meta_piece next tables)
unfolding write_meta
meta-Writes next tables = Writes-then (put_bytes-Writes _) (
    Writes-then (put_uint32-Writes _)
      (Writes-then (put_uint32-Writes _) (Writes-then (skip-Writes 4) (tables-Writes tables))))
