-- ===== src/Tests/Catalog.antt =====
-- The theorems at concrete inputs: the metadata file of one table.
use relational_db_engine.Common.{ℕ, ◌<◌, ◌≡◌, refl, List, [], ◌∷◌, zero, suc, true, false, arith}
use relational_db_engine.Core.Status.{ok, ◌>>=◌}
use relational_db_engine.Core.Memory.{Bytes, AreBytes, peek, copy_out}
use relational_db_engine.Core.Helper.{read_uint16, read_uint32}
use relational_db_engine.Record.LogicalType.{LogicalType, logical_type_from_code}
use relational_db_engine.Record.Schema.{Column, check_column, check_columns, create}
use relational_db_engine.Record.Schema.Valid.{IsColumn}
use relational_db_engine.Record.Layout.{align_to}
use relational_db_engine.Catalog.Cursor.{take_byte, take_uint16, take_uint32, take_bytes}
use relational_db_engine.Catalog.Metadata.{TableMetadata}
use relational_db_engine.Catalog.Metadata.Index.{All, IsCatalog}
use relational_db_engine.Catalog.MetaWriter.{serialize}
use relational_db_engine.Catalog.MetaWriter.Pieces.{meta_piece}
use relational_db_engine.Catalog.MetaWriter.Written.{serialize_lem}
use relational_db_engine.Catalog.MetaReader.{
  Loaded, read_column, read_columns, read_table, accept, read_tables, check_magic, read_meta,
  deserialize,
}
use relational_db_engine.Catalog.MetaReader.Stored.{IsSound, IsStorable}
use relational_db_engine.Catalog.MetaReader.Loading.{deserialize-IsChecked}
use relational_db_engine.Catalog.MetaReader.RoundTrip.{deserialize-serialize}

abbrev number : Column
number = record {
  name = 110 ∷ [];
  type = LogicalType.int32;
  nullable = true;
  primary_key = false;
  string_capacity = 0;
}

abbrev people : TableMetadata
people = record {
  table_id = 1;
  name = 112 ∷ 112 ∷ [];
  schema = record { columns = number ∷ [] };
  first_page_id = 1;
  last_page_id = 3;
}

abbrev pub tables : List TableMetadata
tables = people ∷ []

abbrev pub index : List (Bytes × ℕ)
index = (people.name, 0) ∷ []

serialize_lem_example : serialize 2 tables ≡ ok (meta_piece 2 tables 0)
serialize_lem_example = serialize_lem 2 tables

small : (b : ℕ) → b < 256 → AreBytes (b ∷ [])
small b h zero = h
small b h (suc i) = omega arith

number-IsColumn : IsColumn number
number-IsColumn = record {
  named = omega arith;
  name_fits = omega arith;
  key = λ k. cc;
  string = λ e. cc;
  other = λ ne. refl;
}

people-IsSound : IsSound people
people-IsSound = record {
  first_good = refl;
  last_good = refl;
  some_columns = omega arith;
  few_columns = omega arith;
  columns = (number-IsColumn, tt);
  distinct = (tt, tt);
  one_key = omega arith;
}

name-AreBytes : AreBytes (112 ∷ 112 ∷ [])
name-AreBytes zero = omega arith
name-AreBytes (suc i) = small 112 (omega arith) i

pub tables-IsStorable : All IsStorable tables
tables-IsStorable = (
  record {
    sound = people-IsSound;
    id = omega arith;
    first = omega arith;
    last = omega arith;
    name_bytes = name-AreBytes;
    name_fits = omega arith;
    widths = (record { bytes = small 110 (omega arith); capacity = omega arith }, tt);
  },
  tt,
)

pub tables-IsCatalog : IsCatalog 2 tables index
tables-IsCatalog = record {
  ids = (tt, tt);
  names = (tt, tt);
  below = (omega arith, tt);
  places = λ name. refl;
}

deserialize-serialize_example :
    (l : Loaded) × ((serialize 2 tables >>= deserialize) ≡ ok (2, l))
    × (l.tables ≡ tables)
    × IsCatalog 2 l.tables l.index
deserialize-serialize_example =
    deserialize-serialize 2 tables index (omega arith) (omega arith) (omega arith) tables-IsCatalog
      tables-IsStorable

-- "DTBL", the next table id 2, one table; its ids, its name "pp", and its one column "n".
abbrev file : Bytes
file =
    68 ∷ 84 ∷ 66 ∷ 76 ∷ 2 ∷ 0 ∷ 0 ∷ 0 ∷ 1 ∷ 0 ∷ 0 ∷ 0 ∷ 0 ∷ 0 ∷ 0 ∷ 0 ∷ 1 ∷ 0 ∷ 0 ∷ 0 ∷ 1 ∷ 0 ∷ 0
    ∷ 0 ∷ 3 ∷ 0 ∷ 0 ∷ 0 ∷ 1 ∷ 0 ∷ 0 ∷ 0 ∷ 2 ∷ 0 ∷ 112 ∷ 112 ∷ 3 ∷ 1 ∷ 0 ∷ 0 ∷ 1 ∷ 0 ∷ 110 ∷ 0 ∷ 0
    ∷ 0 ∷ 0 ∷ 0 ∷ []

abbrev loaded : Loaded
loaded = record { tables = tables; index = index; max_id = 1 }

reads : deserialize file ≡ ok (2, loaded)
unfolding deserialize read_meta check_magic take_byte take_uint16 take_uint32 take_bytes peek
    copy_out read_uint16 read_uint32 read_tables read_table read_columns read_column accept create
    check_columns check_column align_to logical_type_from_code
reads = refl

deserialize-IsChecked_example : IsCatalog 2 tables index × All IsSound tables
deserialize-IsChecked_example = deserialize-IsChecked file 2 loaded reads
