-- ===== src/Catalog/MetaReader.antt =====
-- src/catalog/TableManager.cpp: readColumn, readTable, and the part of load that reads the buffer.
pub mod Stored
pub mod Pieces
pub mod Accept
pub mod FileBytes
pub mod RoundTrip
pub mod Loading
use relational_db_engine.Common.{
  ℕ, zero, suc, List, [], ◌∷◌, ◌++◌, Bool, false, ◌||◌, not, length, leb, ltb, ◌==◌, bit_and,
  if◌then◌else◌,
}
use relational_db_engine.Core.Constants.{invalid_page_id}
use relational_db_engine.Core.Status.{Result, ok, err, fault, refuse, require, corruption}
use relational_db_engine.Core.Memory.{Bytes}
use relational_db_engine.Core.Exec.{Exec, return, lift, ◌>>=◌, ◌>>◌}
use relational_db_engine.Record.LogicalType.{logical_type_from_code}
use relational_db_engine.Record.Schema.{Column, create}
use relational_db_engine.Catalog.Cursor.{
  Cursor, at_offset, skip, align, take_byte, take_uint16, take_uint32, take_bytes,
}
use relational_db_engine.Catalog.Metadata.{TableMetadata, tables_meta_magic, find_name, is_known}

-- Any status but Ok becomes a Corruption.
abbrev pub or_corruption {ℓ} : {A : Type ℓ} → Result A → Result A
or_corruption (ok a) = ok a
or_corruption (err e) = err corruption
or_corruption fault = fault

unfoldable pub read_column : Exec Cursor Column
read_column = do
  code ← take_byte
  type ← lift (or_corruption (logical_type_from_code code))
  flags ← take_byte
  lift (refuse (not (bit_and flags 0xfc == 0)) corruption)
  capacity ← take_uint16
  name_length ← take_uint16
  name ← take_bytes name_length
  align 4
  return (record {
    name = name;
    type = type;
    nullable = not (bit_and flags 1 == 0);
    primary_key = not (bit_and flags 2 == 0);
    string_capacity = capacity;
  })

unfoldable pub read_columns : ℕ → Exec Cursor (List Column)
read_columns zero = return []
read_columns (suc n) = do col ← read_column; cols ← read_columns n; return (col ∷ cols)

abbrev pub bad_page_id : ℕ → Bool
bad_page_id id = id == 0 || id == invalid_page_id

unfoldable pub read_table : Exec Cursor TableMetadata
read_table = do
  table_id ← take_uint32
  first_page_id ← take_uint32
  last_page_id ← take_uint32
  column_count ← take_byte
  skip 3
  lift (refuse (bad_page_id first_page_id || bad_page_id last_page_id) corruption)
  name_length ← take_uint16
  name ← take_bytes name_length
  align 4
  columns ← read_columns column_count
  schema ← lift (or_corruption (create columns))
  align 8
  return (record {
    table_id = table_id;
    name = name;
    schema = schema;
    first_page_id = first_page_id;
    last_page_id = last_page_id;
  })

-- The tables in the order of the vector; the index maps a name to a place in it.
pub record Loaded : Type 0 where
  pub tables : List TableMetadata
  pub index : List (Bytes × ℕ)
  pub max_id : ℕ

-- loadedTableIds.find(tableId) != loadedTableIds.end()
abbrev pub has_id : ℕ → List TableMetadata → Bool
has_id id [] = false
has_id id (table ∷ tables) = table.table_id == id || has_id id tables

-- What the loop of load does with a table.
unfoldable pub accept : Loaded → TableMetadata → Result Loaded
accept l meta =
    if has_id meta.table_id l.tables
    then err corruption
    else if is_known (find_name meta.name l.index)
    then err corruption
    else ok (record {
      tables = l.tables ++ (meta ∷ []);
      index = (meta.name, length l.tables) ∷ l.index;
      max_id = if ltb l.max_id meta.table_id then meta.table_id else l.max_id;
    })

unfoldable pub read_tables : ℕ → Loaded → Exec Cursor Loaded
read_tables zero l = return l
read_tables (suc n) l = do meta ← read_table; l' ← lift (accept l meta); read_tables n l'

-- header[i] != magic[i], for each i
unfoldable pub check_magic : Bytes → Exec Cursor (Unit {0})
check_magic [] = return tt
check_magic (m ∷ magic) = do b ← take_byte; lift (require (b == m) corruption); check_magic magic

abbrev pub nothing_loaded : Loaded
nothing_loaded = record { tables = []; index = []; max_id = 0 }

unfoldable pub read_meta : Exec Cursor (ℕ × Loaded)
read_meta = do
  check_magic tables_meta_magic
  next_table_id ← take_uint32
  table_count ← take_uint32
  skip 4
  loaded ← read_tables table_count nothing_loaded
  lift (refuse (leb next_table_id loaded.max_id) corruption)
  return (next_table_id, loaded)

-- What load makes of the bytes of the file: the next table id and the tables.
unfoldable pub deserialize : Bytes → Result (ℕ × Loaded)
deserialize bytes = (read_meta (at_offset bytes 0)).0
