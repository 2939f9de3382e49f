-- ===== src/Record/Schema.antt =====
-- include/dandb/record/Schema.h and src/record/Schema.cpp. A std::string is the list of its bytes.
pub mod Valid
pub mod Complete
use relational_db_engine.Common.{
  ℕ, List, [], ◌∷◌, length, Bool, true, false, ◌&&◌, ◌||◌, not, ltb, ◌==◌,
}
use relational_db_engine.Core.Status.{Result, ok, ◌>>◌, refuse, invalid_argument}
use relational_db_engine.Core.Memory.{Bytes}
use relational_db_engine.Record.LogicalType.{LogicalType, string, same_type}

pub record Column : Type 0 where
  pub name : Bytes
  pub type : LogicalType
  pub nullable : Bool
  pub primary_key : Bool
  pub string_capacity : ℕ

pub record Schema : Type 0 where
  pub columns : List Column

-- == of std::string
abbrev pub same_name : Bytes → Bytes → Bool
same_name [] [] = true
same_name (x ∷ xs) (y ∷ ys) = x == y && same_name xs ys
same_name _ _ = false

-- seenNames.find(name) != seenNames.end()
abbrev pub seen : Bytes → List Bytes → Bool
seen name [] = false
seen name (n ∷ names) = same_name name n || seen name names

abbrev pub empty {ℓ} : {A : Type ℓ} → List A → Bool
empty [] = true
empty (x ∷ xs) = false

-- The checks of one column, in the order of the loop body.
unfoldable pub check_column : List Bytes → Bool → Column → Result (Unit {0})
check_column names pk col = do
  refuse (empty col.name) invalid_argument
  refuse (seen col.name names) invalid_argument
  refuse (ltb 0xffff (length col.name)) invalid_argument
  refuse (col.primary_key && pk) invalid_argument
  refuse (col.primary_key && col.nullable) invalid_argument
  refuse (same_type col.type string && (col.string_capacity == 0)) invalid_argument
  refuse (not (same_type col.type string) && not (col.string_capacity == 0)) invalid_argument

unfoldable pub check_columns : List Bytes → Bool → List Column → Result (Unit {0})
check_columns names pk [] = ok tt
check_columns names pk (col ∷ cols) = do
  check_column names pk col
  check_columns (col.name ∷ names) (pk || col.primary_key) cols

unfoldable pub create : List Column → Result Schema
create columns = do
  refuse (empty columns) invalid_argument
  refuse (ltb 255 (length columns)) invalid_argument
  check_columns [] false columns
  ok (record { columns = columns })
