-- ===== src/Catalog/MetaWriter/Written.antt =====
-- What save writes, and that the size it computes first is the size of what it writes.
use mathlib.Core.List.{append-nil}
use relational_db_engine.Common.{
  ℕ, ◌+◌, ◌-◌, ◌<◌, ◌%◌, ◌≡◌, refl, ap, List, [], ◌∷◌, length, length-append, length-replicate,
  replicate, arith,
}
use relational_db_engine.Core.Status.{ok}
use relational_db_engine.Core.Memory.{Bytes}
use relational_db_engine.Core.Helper.LittleEndian.{le_bytes, length-le_bytes}
use relational_db_engine.Core.Constants.{u16_mod, u32_mod}
use relational_db_engine.Record.LogicalType.{logical_type_code}
use relational_db_engine.Record.Layout.{align_to, align_to_bounds}
use relational_db_engine.Record.Schema.{Column}
use relational_db_engine.Catalog.Cursor.Pieces.{Piece, const, ◌then◌, pad, zeros}
use relational_db_engine.Catalog.Metadata.{TableMetadata, tables_meta_magic}
use relational_db_engine.Catalog.MetaWriter.{
  column_flags, add_column, add_columns, add_table, add_tables, serialized_size, serialize,
}
use relational_db_engine.Catalog.MetaWriter.Pieces.{
  column_piece, columns_piece, table_piece, tables_piece, meta_piece, meta-Writes,
}

-- A piece at the offset o ends at e.
record Ends (p : Piece) (o e : ℕ) : Type 0 where
  ends : o + length (p o) ≡ e

Ends-then : {p q : Piece} {o m e : ℕ} → Ends p o m → Ends q m e → Ends (p then q) o e
Ends-then {p} {q} {o} {m} {e} a b = record {
  ends =
      let behind : o + length (p o) ≡ m = a.ends in
      let last : m + length (q m) ≡ e = b.ends in
      let at : length (q (o + length (p o))) ≡ length (q m) = ap (λ i. length (q i)) behind in
      omega (arith, length-append (p o) (q (o + length (p o))));
}

const-Ends : (xs : Bytes) (o n : ℕ) → length xs ≡ n → Ends (const xs) o (o + n)
const-Ends xs o n e = record { ends = ap (λ k. o + k) e }

le-Ends : (w v o : ℕ) → Ends (const (le_bytes w v)) o (o + w)
le-Ends w v o = const-Ends (le_bytes w v) o w (length-le_bytes w v)

zeros-Ends : (k o : ℕ) → Ends (const (zeros k)) o (o + k)
zeros-Ends k o = const-Ends (zeros k) o k (length-replicate k 0)

pad-Ends : (a o : ℕ) → 0 < a → Ends (pad a) o (align_to o a)
pad-Ends a o pos = record {
  ends = omega (arith, align_to_bounds o a pos, length-replicate {A = ℕ} (align_to o a - o) 0);
}

column-Ends : (col : Column) (o : ℕ) → Ends (column_piece col) o (add_column o col)
unfolding add_column
column-Ends col o = Ends-then (const-Ends (logical_type_code col.type ∷ []) o 1 refl) (
    Ends-then (const-Ends (column_flags col ∷ []) _ 1 refl) (
      Ends-then (le-Ends 2 col.string_capacity _) (
        Ends-then (le-Ends 2 (length col.name % u16_mod) _)
          (Ends-then (const-Ends col.name _ _ refl) (pad-Ends 4 _ (omega arith))))))

columns-Ends : (cols : List Column) (o : ℕ) → Ends (columns_piece cols) o (add_columns o cols)
unfolding add_columns
columns-Ends [] o = record { ends = omega arith }
columns-Ends (col ∷ cols) o = Ends-then (column-Ends col o) (columns-Ends cols (add_column o col))

table-Ends : (table : TableMetadata) (o : ℕ) → Ends (table_piece table) o (add_table o table)
unfolding add_table
table-Ends table o = Ends-then (le-Ends 4 table.table_id o) (
    Ends-then (le-Ends 4 table.first_page_id _) (
      Ends-then (le-Ends 4 table.last_page_id _) (
        Ends-then (const-Ends (length table.schema.columns % 256 ∷ []) _ 1 refl) (
          Ends-then (zeros-Ends 3 _) (
            Ends-then (le-Ends 2 (length table.name % u16_mod) _) (
              Ends-then (const-Ends table.name _ _ refl) (
                Ends-then (pad-Ends 4 _ (omega arith)) (
                  Ends-then (columns-Ends table.schema.columns _)
                    (pad-Ends 8 _ (omega arith))))))))))

tables-Ends :
    (tables : List TableMetadata) (o : ℕ) → Ends (tables_piece tables) o (add_tables o tables)
unfolding add_tables
tables-Ends [] o = record { ends = omega arith }
tables-Ends (table ∷ tables) o =
    Ends-then (table-Ends table o) (tables-Ends tables (add_table o table))

meta-Ends :
    (next : ℕ) (tables : List TableMetadata)
    → Ends (meta_piece next tables) 0 (serialized_size tables)
meta-Ends next tables = Ends-then (const-Ends tables_meta_magic 0 4 refl) (
    Ends-then (le-Ends 4 next _) (
      Ends-then (le-Ends 4 (length tables % u32_mod) _)
        (Ends-then (zeros-Ends 4 _) (tables-Ends tables _))))

-- save fills the buffer exactly, whatever the tables are: serializedSize is the number of bytes
-- that are written, no write leaves the buffer, and what the buffer holds then is meta_piece.
pub serialize_lem :
    (next : ℕ) (tables : List TableMetadata) → serialize next tables ≡ ok (meta_piece next tables 0)
unfolding serialize replicate
serialize_lem next tables =
    let size : serialized_size tables ≡ length (meta_piece next tables 0) + 0 =
      omega (arith, (meta-Ends next tables).ends) in
    let wrote = (meta-Writes next tables).run 0 0 [] refl in
    rw (size, wrote, append-nil (meta_piece next tables 0)) refl
