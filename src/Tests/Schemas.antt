-- ===== src/Tests/Schemas.antt =====
-- The theorems at concrete inputs: a schema of two columns.
use relational_db_engine.Common.{
  ◌≤◌, ◌<◌, ◌≡◌, ◌≢◌, refl, List, [], ◌∷◌, length, true, false, arith,
}
use relational_db_engine.Core.Status.{ok}
use relational_db_engine.Record.LogicalType.{LogicalType}
use relational_db_engine.Record.Schema.{Column, Schema, check_column, check_columns, create}
use relational_db_engine.Record.Schema.Valid.{
  IsColumn, AreColumns, AreDistinct, keys, create-AreColumns,
}
use relational_db_engine.Record.Schema.Complete.{create_complete}

abbrev id : Column
id = record {
  name = 105 ∷ [];
  type = LogicalType.int32;
  nullable = false;
  primary_key = true;
  string_capacity = 0;
}

abbrev note : Column
note = record {
  name = 110 ∷ [];
  type = LogicalType.string;
  nullable = true;
  primary_key = false;
  string_capacity = 4;
}

abbrev both : List Column
both = id ∷ note ∷ []

abbrev schema : Schema
schema = record { columns = both }

create-both : create both ≡ ok schema
unfolding create check_columns check_column
create-both = refl

create-AreColumns_example :
    (schema.columns ≡ both)
    × (0 < length both)
    × (length both ≤ 255)
    × AreColumns both
    × AreDistinct both
    × (keys both ≤ 1)
create-AreColumns_example = create-AreColumns both schema create-both

id-IsColumn : IsColumn id
id-IsColumn = record {
  named = omega arith;
  name_fits = omega arith;
  key = λ k. refl;
  string = λ e. cc;
  other = λ ne. refl;
}

note-IsColumn : IsColumn note
note-IsColumn = record {
  named = omega arith;
  name_fits = omega arith;
  key = λ k. cc;
  string = λ e. omega arith;
  other = λ ne. absurd (ne refl);
}

names_differ : note.name ≢ id.name
names_differ e = ground arith

create_complete_example : create both ≡ ok schema
create_complete_example =
    create_complete both (omega arith) (omega arith) (id-IsColumn, (note-IsColumn, tt))
      ((names_differ, tt), (tt, tt)) (omega arith)
