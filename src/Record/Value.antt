-- ===== src/Record/Value.antt =====
-- include/dandb/record/Value.h and Row.h
use relational_db_engine.Common.{List, Bool, true, false}
use relational_db_engine.Common.Int.{ℤ}
use relational_db_engine.Core.Memory.{Bytes}
use relational_db_engine.Record.LogicalType.{LogicalType}

-- One constructor for each static function that makes a Value: the constructor of the class is
-- private, so type and payload agree. A double is its eight bytes in memory.
pub data Value : Type 0 where
  boolean : Bool → Value
  byte : ℤ → Value
  int32 : ℤ → Value
  int64 : ℤ → Value
  double_value : Bytes → Value
  string : Bytes → Value
  null : LogicalType → Value

abbrev pub type : Value → LogicalType
type (boolean b) = LogicalType.boolean
type (byte z) = LogicalType.byte
type (int32 z) = LogicalType.int32
type (int64 z) = LogicalType.int64
type (double_value bytes) = LogicalType.double
type (string s) = LogicalType.string
type (null t) = t

abbrev pub is_null : Value → Bool
is_null (null t) = true
is_null _ = false

pub record Row : Type 0 where
  pub values : List Value
