-- ===== src/Record/LogicalType.antt =====
-- include/dandb/record/LogicalType.h
use relational_db_engine.Common.{ℕ, ◌≡◌, arith, ◌==◌, if◌then◌else◌, Bool, true, false}
use relational_db_engine.Core.Status.{Result, ok, err, corruption}

pub data LogicalType : Type 0 where
  boolean byte int32 int64 double string : LogicalType

-- == of the enum
abbrev pub same_type : LogicalType → LogicalType → Bool
same_type boolean boolean = true
same_type byte byte = true
same_type int32 int32 = true
same_type int64 int64 = true
same_type double double = true
same_type string string = true
same_type _ _ = false

unfoldable pub logical_type_code : LogicalType → ℕ
logical_type_code boolean = 0x01
logical_type_code byte = 0x02
logical_type_code int32 = 0x03
logical_type_code int64 = 0x04
logical_type_code double = 0x05
logical_type_code string = 0x06

unfoldable pub logical_type_from_code : ℕ → Result LogicalType
logical_type_from_code code =
    if code == 0x01
    then ok boolean
    else if code == 0x02
    then ok byte
    else if code == 0x03
    then ok int32
    else if code == 0x04
    then ok int64
    else if code == 0x05
    then ok double
    else if code == 0x06
    then ok string
    else err corruption

-- logicalTypeFromCode turns the code of each type back into the type.
pub from_code-code : (t : LogicalType) → logical_type_from_code (logical_type_code t) ≡ ok t
unfolding logical_type_from_code logical_type_code
from_code-code t = ground arith

-- The code that logicalTypeFromCode turns into a type is the code of that type.
pub code-from_code :
    (c : ℕ) (t : LogicalType) → logical_type_from_code c ≡ ok t → logical_type_code t ≡ c
unfolding logical_type_from_code logical_type_code
code-from_code c t h = ground arith
