-- ===== src/Catalog/MetaReader/Stored.antt =====
-- The tables that the metadata file can hold.
use relational_db_engine.Common.{◌^◌, ◌≤◌, ◌<◌, ◌≡◌, List, [], ◌∷◌, false, length}
use relational_db_engine.Core.Memory.{AreBytes}
use relational_db_engine.Record.Schema.{Column}
use relational_db_engine.Record.Schema.Valid.{AreColumns, AreDistinct, keys}
use relational_db_engine.Catalog.Metadata.{TableMetadata}
use relational_db_engine.Catalog.MetaReader.{bad_page_id}

-- The fields of a column have the widths of the source's types: std::string and uint16_t.
pub record HasWidths (col : Column) : Type 0 where
  pub bytes : AreBytes col.name
  pub capacity : col.string_capacity < 2 ^ 16

abbrev pub HaveWidths : List Column → Type 0
HaveWidths [] = Unit {0}
HaveWidths (col ∷ cols) = HasWidths col × HaveWidths cols

-- A table whose schema create accepts, with page ids that are not those of no page.
pub record IsSound (table : TableMetadata) : Type 0 where
  pub first_good : bad_page_id table.first_page_id ≡ false
  pub last_good : bad_page_id table.last_page_id ≡ false
  pub some_columns : 0 < length table.schema.columns
  pub few_columns : length table.schema.columns ≤ 255
  pub columns : AreColumns table.schema.columns
  pub distinct : AreDistinct table.schema.columns
  pub one_key : keys table.schema.columns ≤ 1

-- A sound table whose fields have the source's widths.
pub record IsStorable (table : TableMetadata) : Type 0 where
  pub sound : IsSound table
  pub id : table.table_id < 2 ^ 32
  pub first : table.first_page_id < 2 ^ 32
  pub last : table.last_page_id < 2 ^ 32
  pub name_bytes : AreBytes table.name
  pub name_fits : length table.name ≤ 0xffff
  pub widths : HaveWidths table.schema.columns
