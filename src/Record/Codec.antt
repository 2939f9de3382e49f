-- ===== src/Record/Codec.antt =====
-- src/record/Codec.cpp
pub mod Stored
pub mod Written
pub mod Values
pub mod Bitmap
pub mod Checks
pub mod Encode
pub mod ReadBack
pub mod RoundTrip
pub mod Decode
use relational_db_engine.Common.{
  ℕ, zero, suc, ◌+◌, ◌-◌, ◌*◌, ◌/◌, ◌%◌, ◌^◌, List, [], ◌∷◌, Bool, true, false, not, ◌&&◌, length,
  replicate, ltb, ◌==◌, if◌then◌else◌, bit_and, bit_or,
}
use relational_db_engine.Common.Int.{to_unsigned, to_signed}
use relational_db_engine.Core.Status.{
  Result, ok, err, fault, ◌>>=◌, ◌>>◌, refuse, require, invalid_argument,
}
use relational_db_engine.Core.Memory.{Bytes, peek, poke, copy_in}
use relational_db_engine.Core.Helper.{
  write_uint32, read_uint32, write_uint64, read_uint64, write_double, read_double,
}
use relational_db_engine.Record.LogicalType.{LogicalType, same_type}
use relational_db_engine.Record.Schema.{Column, Schema}
use relational_db_engine.Record.Value.{
  Value, boolean, byte, int32, int64, double_value, string, null, type, is_null, Row,
}
use relational_db_engine.Record.Layout.{
  align_to, null_bitmap_size, value_size, value_alignment, encoded_size,
}

-- val.type() == String && !val.isNull() && val.asString().size() > capacity
abbrev pub too_long : Value → ℕ → Bool
too_long (string s) capacity = ltb capacity (length s)
too_long _ capacity = false

unfoldable pub check_value : Column → Value → Result (Unit {0})
check_value col val = do
  require (same_type (type val) col.type) invalid_argument
  refuse (is_null val && not col.nullable) invalid_argument
  refuse (too_long val col.string_capacity) invalid_argument

-- The loops go through the columns and the values side by side; there are as many of both.
unfoldable pub check_values : List Column → List Value → Result (Unit {0})
unfolding check_value
check_values [] [] = ok tt
check_values (col ∷ cols) (val ∷ vals) = do check_value col val; check_values cols vals
check_values _ _ = fault

-- encoded[offset+i/8] |= 1 << (i%8), for a null value i.
unfoldable pub mark_null : Bytes → ℕ → ℕ → Value → Result Bytes
mark_null encoded offset i val = if not (is_null val) then ok encoded else do
  b ← peek encoded (offset + i / 8)
  poke encoded (offset + i / 8) (bit_or b (2 ^ (i % 8) % 256))

unfoldable pub mark_nulls : Bytes → ℕ → ℕ → List Value → Result Bytes
unfolding mark_null
mark_nulls encoded offset i [] = ok encoded
mark_nulls encoded offset i (val ∷ vals) = do
  encoded' ← mark_null encoded offset i val
  mark_nulls encoded' offset (suc i) vals

abbrev pub bool_byte : Bool → ℕ
bool_byte true = 1
bool_byte false = 0

unfoldable pub write_value : Bytes → ℕ → Value → Result Bytes
write_value encoded offset (boolean b) = poke encoded offset (bool_byte b)
write_value encoded offset (byte z) = poke encoded offset (to_unsigned 8 z)
write_value encoded offset (int32 z) = write_uint32 encoded offset (to_unsigned 32 z)
write_value encoded offset (int64 z) = write_uint64 encoded offset (to_unsigned 64 z)
write_value encoded offset (double_value bytes) = write_double encoded offset bytes
write_value encoded offset (string s) = copy_in encoded offset s
write_value encoded offset (null t) = ok encoded

unfoldable pub write_values : Bytes → ℕ → List Column → List Value → Result Bytes
unfolding write_value
write_values encoded offset [] [] = ok encoded
write_values encoded offset (col ∷ cols) (val ∷ vals) =
    let at = align_to offset (value_alignment col.type) in
    do encoded' ← write_value encoded at val; write_values encoded' (at + value_size col) cols vals
write_values encoded offset _ _ = fault

unfoldable pub encode : Schema → Row → Result Bytes
unfolding check_values mark_nulls write_values
encode schema row = do
  refuse (not (length row.values == length schema.columns)) invalid_argument
  check_values schema.columns row.values
  let count = length row.values
  encoded0 ← poke (replicate (encoded_size schema) 0) 0 (count % 256)
  encoded1 ← mark_nulls encoded0 1 0 row.values
  write_values encoded1 (align_to (1 + null_bitmap_size count) 8) schema.columns row.values

-- nullBitmap[i] = ((row[offset+i/8] >> (i%8)) & 1) != 0, for the columns from i on.
unfoldable pub read_nulls : Bytes → ℕ → ℕ → List Column → Result (List Bool)
read_nulls row offset i [] = ok []
read_nulls row offset i (col ∷ cols) = do
  b ← peek row (offset + i / 8)
  rest ← read_nulls row offset (suc i) cols
  ok (not (b / 2 ^ (i % 8) % 2 == 0) ∷ rest)

-- The bits of the last bitmap byte that stand for no column.
abbrev pub unused_bits_mask : ℕ → ℕ
unused_bits_mask count = if count % 8 == 0 then 0 else 0xff * 2 ^ (count % 8) % 256

-- for(j = 0; j < size; j++) if(row[offset+j] != 0) return InvalidArgument
unfoldable pub check_zeros : Bytes → ℕ → ℕ → Result (Unit {0})
check_zeros row offset zero = ok tt
check_zeros row offset (suc size) = do
  b ← peek row offset
  require (b == 0) invalid_argument
  check_zeros row (suc offset) size

-- Up to `capacity` characters, the first NUL ends the string.
unfoldable pub read_string : Bytes → ℕ → ℕ → Result Bytes
read_string row offset zero = ok []
read_string row offset (suc capacity) = do
  ch ← peek row offset
  if ch == 0 then ok [] else do rest ← read_string row (suc offset) capacity; ok (ch ∷ rest)

unfoldable pub read_value : Bytes → ℕ → LogicalType → ℕ → Result Value
unfolding read_string
read_value row offset LogicalType.boolean capacity = do
  b ← peek row offset
  ok (boolean (not (b == 0)))
read_value row offset LogicalType.byte capacity = do b ← peek row offset; ok (byte (to_signed 7 b))
read_value row offset LogicalType.int32 capacity = do
  w ← read_uint32 row offset
  ok (int32 (to_signed 31 w))
read_value row offset LogicalType.int64 capacity = do
  w ← read_uint64 row offset
  ok (int64 (to_signed 63 w))
read_value row offset LogicalType.double capacity = do
  bytes ← read_double row offset
  ok (double_value bytes)
read_value row offset LogicalType.string capacity = do
  s ← read_string row offset capacity
  ok (string s)

-- One round of the loop over the columns.
unfoldable pub read_column : Bytes → ℕ → Column → Bool → Result Value
unfolding check_zeros read_value
read_column row offset col true = do
  require col.nullable invalid_argument
  check_zeros row offset (value_size col)
  ok (null col.type)
read_column row offset col false = read_value row offset col.type col.string_capacity

unfoldable pub read_values : Bytes → ℕ → List Column → List Bool → Result (List Value)
unfolding read_column
read_values row offset [] [] = ok []
read_values row offset (col ∷ cols) (is_null ∷ null_bitmap) =
    let at = align_to offset (value_alignment col.type) in
    do
      value ← read_column row at col is_null
      values ← read_values row (at + value_size col) cols null_bitmap
      ok (value ∷ values)
read_values row offset _ _ = fault

unfoldable pub decode : Schema → Bytes → Result Row
unfolding read_nulls read_values
decode schema row = do
  require (encoded_size schema == length row) invalid_argument
  stored_count ← peek row 0
  let count = length schema.columns
  require (stored_count == count) invalid_argument
  null_bitmap ← read_nulls row 1 0 schema.columns
  last ← peek row (1 + null_bitmap_size count - 1)
  require (bit_and last (unused_bits_mask count) == 0) invalid_argument
  values ← read_values row (align_to (1 + null_bitmap_size count) 8) schema.columns null_bitmap
  ok (record { values = values })
