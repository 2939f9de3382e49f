-- ===== src/Catalog/MetaReader/FileBytes.antt =====
-- What is written of storable tables are bytes.
use relational_db_engine.Common.{
  ℕ, zero, suc, ◌+◌, ◌*◌, ◌-◌, ◌%◌, ◌<◌, List, [], ◌∷◌, ◌++◌, length, Bool, true, false, arith,
}
use relational_db_engine.Core.Constants.{u32_mod}
use relational_db_engine.Core.Memory.{Bytes, AreBytes}
use relational_db_engine.Core.Memory.Splice.{AreBytes-replicate}
use relational_db_engine.Core.Helper.LittleEndian.{le_bytes, AreBytes-le_bytes}
use relational_db_engine.Record.LogicalType.{LogicalType, logical_type_code}
use relational_db_engine.Record.Schema.{Column}
use relational_db_engine.Record.Codec.{bool_byte}
use relational_db_engine.Record.Layout.{align_to}
use relational_db_engine.Catalog.Cursor.Pieces.{Piece, const, ◌then◌, pad}
use relational_db_engine.Catalog.Metadata.{TableMetadata, tables_meta_magic}
use relational_db_engine.Catalog.Metadata.Index.{All}
use relational_db_engine.Catalog.MetaWriter.Pieces.{
  column_piece, columns_piece, table_piece, tables_piece, meta_piece,
}
use relational_db_engine.Catalog.MetaReader.Stored.{HasWidths, HaveWidths, IsStorable}

record IsBytes (p : Piece) : Type 0 where
  at : (o : ℕ) → AreBytes (p o)

AreBytes-append : (xs ys : Bytes) → AreBytes xs → AreBytes ys → AreBytes (xs ++ ys)
AreBytes-append [] ys a b i = b i
AreBytes-append (x ∷ xs) ys a b zero = a 0
AreBytes-append (x ∷ xs) ys a b (suc i) = AreBytes-append xs ys (λ k. a (suc k)) b i

IsBytes-then : {p q : Piece} → IsBytes p → IsBytes q → IsBytes (p then q)
IsBytes-then {p} {q} a b = record {
  at = λ o. AreBytes-append (p o) (q (o + length (p o))) (a.at o) (b.at (o + length (p o)));
}

const-IsBytes : {xs : Bytes} → AreBytes xs → IsBytes (const xs)
const-IsBytes a = record { at = λ o. a }

one-AreBytes : (b : ℕ) → b < 256 → AreBytes (b ∷ [])
one-AreBytes b h zero = h
one-AreBytes b h (suc i) = omega arith

byte-IsBytes : (b : ℕ) → b < 256 → IsBytes (const (b ∷ []))
byte-IsBytes b h = const-IsBytes (one-AreBytes b h)

le-IsBytes : (w v : ℕ) → IsBytes (const (le_bytes w v))
le-IsBytes w v = const-IsBytes (AreBytes-le_bytes w v)

pad-IsBytes : (a : ℕ) → IsBytes (pad a)
pad-IsBytes a = record { at = λ o. AreBytes-replicate (align_to o a - o) }

code_small : (t : LogicalType) → logical_type_code t < 256
unfolding logical_type_code
code_small t = ground arith

flags_small : (n k : Bool) → bool_byte n + bool_byte k * 2 < 256
flags_small true true = omega arith
flags_small true false = omega arith
flags_small false true = omega arith
flags_small false false = omega arith

column-IsBytes : (col : Column) → HasWidths col → IsBytes (column_piece col)
column-IsBytes col w = IsBytes-then (byte-IsBytes _ (code_small col.type)) (
    IsBytes-then (byte-IsBytes _ (flags_small col.nullable col.primary_key)) (
      IsBytes-then (le-IsBytes 2 _)
        (IsBytes-then (le-IsBytes 2 _) (IsBytes-then (const-IsBytes w.bytes) (pad-IsBytes 4)))))

nothing-IsBytes : AreBytes []
nothing-IsBytes i = omega arith

columns-IsBytes : (cols : List Column) → HaveWidths cols → IsBytes (columns_piece cols)
columns-IsBytes [] w = record { at = λ o. nothing-IsBytes }
columns-IsBytes (col ∷ cols) w = IsBytes-then (column-IsBytes col w.0) (columns-IsBytes cols w.1)

table-IsBytes : (table : TableMetadata) → IsStorable table → IsBytes (table_piece table)
table-IsBytes table t = IsBytes-then (le-IsBytes 4 _) (
    IsBytes-then (le-IsBytes 4 _) (
      IsBytes-then (le-IsBytes 4 _) (
        IsBytes-then (byte-IsBytes _ (omega arith)) (
          IsBytes-then (const-IsBytes (AreBytes-replicate 3)) (
            IsBytes-then (le-IsBytes 2 _) (
              IsBytes-then (const-IsBytes t.name_bytes) (
                IsBytes-then (pad-IsBytes 4)
                  (IsBytes-then (columns-IsBytes _ t.widths) (pad-IsBytes 8)))))))))

tables-IsBytes :
    (tables : List TableMetadata) → All IsStorable tables → IsBytes (tables_piece tables)
tables-IsBytes [] s = record { at = λ o. nothing-IsBytes }
tables-IsBytes (table ∷ tables) s =
    IsBytes-then (table-IsBytes table s.0) (tables-IsBytes tables s.1)

magic-AreBytes : AreBytes tables_meta_magic
magic-AreBytes zero = omega arith
magic-AreBytes (suc zero) = omega arith
magic-AreBytes (suc (suc zero)) = omega arith
magic-AreBytes (suc (suc (suc zero))) = omega arith
magic-AreBytes (suc (suc (suc (suc i)))) = omega arith

pub meta-AreBytes :
    (next : ℕ) (tables : List TableMetadata)
    → All IsStorable tables
    → AreBytes (meta_piece next tables 0)
meta-AreBytes next tables s =
    let whole : IsBytes (meta_piece next tables) =
      IsBytes-then (const-IsBytes {xs = tables_meta_magic} magic-AreBytes) (
        IsBytes-then (le-IsBytes 4 next) (
          IsBytes-then (le-IsBytes 4 (length tables % u32_mod))
            (IsBytes-then (const-IsBytes (AreBytes-replicate 4)) (tables-IsBytes tables s)))) in
    whole.at 0
