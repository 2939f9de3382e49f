-- ===== src/Catalog/MetaReader/Pieces.antt =====
-- The readers of a column and of a table find what the writers write.
use relational_db_engine.Common.{
  ◌+◌, ◌*◌, ◌%◌, ◌≤◌, ◌≡◌, refl, ap, List, [], ◌∷◌, Bool, true, false, ◌||◌, not, ◌==◌, length,
  bit_and, arith,
}
use relational_db_engine.Core.Constants.{u16_mod}
use relational_db_engine.Core.Status.{ok, refuse, corruption}
use relational_db_engine.Core.Memory.{Bytes}
use relational_db_engine.Core.Helper.LittleEndian.{le_bytes}
use relational_db_engine.Record.LogicalType.{
  LogicalType, logical_type_code, logical_type_from_code, from_code-code,
}
use relational_db_engine.Record.Schema.{Column, create}
use relational_db_engine.Record.Schema.Valid.{IsColumn, AreColumns}
use relational_db_engine.Record.Schema.Complete.{create_complete}
use relational_db_engine.Record.Codec.{bool_byte}
use relational_db_engine.Catalog.Cursor.{take_byte, take_uint16}
use relational_db_engine.Catalog.Cursor.Pieces.{const, Reads}
use relational_db_engine.Catalog.Cursor.Reading.{
  take_byte-Reads, take_uint16-Reads, take_uint32-Reads, take_bytes-Reads, skip-Reads, align-Reads,
  Reads-then, lift-Reads, Reads-last, Reads-nothing, Reads-then_unit, lift-Reads_unit,
  Reads-last_unit,
}
use relational_db_engine.Catalog.Metadata.{TableMetadata}
use relational_db_engine.Catalog.MetaWriter.{column_flags}
use relational_db_engine.Catalog.MetaWriter.Pieces.{column_piece, columns_piece, table_piece}
use relational_db_engine.Catalog.MetaReader.{
  or_corruption, read_column, read_columns, bad_page_id, read_table,
}
use relational_db_engine.Catalog.MetaReader.Stored.{HasWidths, HaveWidths, IsStorable}

known_flags : (n k : Bool) → (bit_and (bool_byte n + bool_byte k * 2) 0xfc == 0) ≡ true
known_flags true true = refl
known_flags true false = refl
known_flags false true = refl
known_flags false false = refl

known :
    (n k : Bool)
    → refuse (not (bit_and (bool_byte n + bool_byte k * 2) 0xfc == 0)) corruption ≡ ok tt
known n k = rw (known_flags n k) refl

type_back : (t : LogicalType) → or_corruption (logical_type_from_code (logical_type_code t)) ≡ ok t
type_back t = rw (from_code-code t) refl

nullable_flag : (n k : Bool) → not (bit_and (bool_byte n + bool_byte k * 2) 1 == 0) ≡ n
nullable_flag true true = refl
nullable_flag true false = refl
nullable_flag false true = refl
nullable_flag false false = refl

key_flag : (n k : Bool) → not (bit_and (bool_byte n + bool_byte k * 2) 2 == 0) ≡ k
key_flag true true = refl
key_flag true false = refl
key_flag false true = refl
key_flag false false = refl

-- A length that fits in a uint16_t is read back, and then so many bytes.
name_length : (xs : Bytes) → length xs ≤ 0xffff → length xs % u16_mod ≡ length xs
name_length xs h = omega arith

pub length-Reads :
    (xs : Bytes)
    → length xs ≤ 0xffff
    → Reads take_uint16 (const (le_bytes 2 (length xs % u16_mod))) (length xs)
length-Reads xs h = rw (name_length xs h) (take_uint16-Reads (length xs) (omega arith))

pub column-Reads :
    (col : Column) → IsColumn col → HasWidths col → Reads read_column (column_piece col) col
unfolding read_column
column-Reads col c w =
    let f = column_flags col in
    let same : record col {
      nullable = not (bit_and f 1 == 0);
      primary_key = not (bit_and f 2 == 0);
    }
        ≡ col =
      rw (nullable_flag col.nullable col.primary_key, key_flag col.nullable col.primary_key) refl in
    Reads-then _ (take_byte-Reads (logical_type_code col.type)) (
      lift-Reads _ (type_back col.type) (
        Reads-then _ (take_byte-Reads (column_flags col)) (
          lift-Reads_unit (known col.nullable col.primary_key) (
            Reads-then _ (take_uint16-Reads col.string_capacity w.capacity) (
              Reads-then _ (length-Reads col.name c.name_fits) (
                Reads-then _ (take_bytes-Reads col.name) (
                  Reads-last_unit (align-Reads 4 (omega arith))
                    (λ s. ap (λ k. (ok k, s)) same))))))))

columns-Reads :
    (cols : List Column)
    → AreColumns cols
    → HaveWidths cols
    → Reads (read_columns (length cols)) (columns_piece cols) cols
unfolding read_columns
columns-Reads [] c w = Reads-nothing []
columns-Reads (col ∷ cols) c w =
    Reads-then _ (column-Reads col c.0 w.0) (Reads-last _ (columns-Reads cols c.1 w.1) (λ s. refl))

few_count : (cols : List Column) → length cols ≤ 255 → length cols % 256 ≡ length cols
few_count cols h = omega arith

-- The column count is read back.
count-Reads :
    (cols : List Column)
    → length cols ≤ 255
    → Reads take_byte (const (length cols % 256 ∷ [])) (length cols)
count-Reads cols h = rw (few_count cols h) (take_byte-Reads (length cols))

pub table-Reads :
    (table : TableMetadata) → IsStorable table → Reads read_table (table_piece table) table
unfolding read_table
table-Reads table t =
    let made =
      create_complete table.schema.columns t.sound.some_columns t.sound.few_columns t.sound.columns
        t.sound.distinct t.sound.one_key in
    let schema : or_corruption (create table.schema.columns) ≡ ok table.schema = rw made refl in
    let pages : refuse (bad_page_id table.first_page_id || bad_page_id table.last_page_id)
          corruption
        ≡ ok tt =
      rw (t.sound.first_good, t.sound.last_good) refl in
    Reads-then _ (take_uint32-Reads table.table_id t.id) (
      Reads-then _ (take_uint32-Reads table.first_page_id t.first) (
        Reads-then _ (take_uint32-Reads table.last_page_id t.last) (
          Reads-then _ (count-Reads table.schema.columns t.sound.few_columns) (
            Reads-then_unit (skip-Reads 3) (
              lift-Reads_unit pages (
                Reads-then _ (length-Reads table.name t.name_fits) (
                  Reads-then _ (take_bytes-Reads table.name) (
                    Reads-then_unit (align-Reads 4 (omega arith)) (
                      Reads-then _ (columns-Reads table.schema.columns t.sound.columns t.widths) (
                        lift-Reads _ schema
                          (Reads-last_unit (align-Reads 8 (omega arith)) (λ s. refl))))))))))))
