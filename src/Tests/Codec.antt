-- ===== src/Tests/Codec.antt =====
-- The theorems at concrete inputs: the encoding of numbers and rows.
use relational_db_engine.Common.{
  ◌^◌, ◌⊎◌, ◌*◌, ℕ, ℕ, zero, suc, ◌%◌, ◌≤◌, ◌<◌, ◌≡◌, ◌⊎◌, refl, [], ◌∷◌, true, false, map,
  replicate, length-replicate, arith,
}
use relational_db_engine.Common.Int.{pos}
use relational_db_engine.Core.Status.{ok, err, invalid_argument, ◌>>=◌}
use relational_db_engine.Core.Memory.{Bytes, AreBytes, peek, poke, copy_in}
use relational_db_engine.Core.Memory.Splice.{AreBytes-replicate}
use relational_db_engine.Core.Helper.{
  write_uint16, read_uint16, write_uint32, read_uint32, write_uint64, read_uint64,
}
use relational_db_engine.Core.Helper.LittleEndian.{read-write}
use relational_db_engine.Record.LogicalType.{
  LogicalType, logical_type_code, logical_type_from_code, from_code-code, code-from_code,
}
use relational_db_engine.Record.Schema.{Schema}
use relational_db_engine.Record.Layout.{
  encoded_size, align_to, align_to_least, null_bitmap_size, end_of_values,
}
use relational_db_engine.Record.Value.{Value, Row}
use relational_db_engine.Record.Codec.{
  encode, decode, check_values, check_value, mark_nulls, mark_null, write_values, write_value,
}
use relational_db_engine.Record.Codec.Values.{AllFit, AllRepresentable}
use relational_db_engine.Record.Codec.Encode.{IsEncoded, encode-total}
use relational_db_engine.Record.Codec.ReadBack.{cut}
use relational_db_engine.Record.Codec.RoundTrip.{decode-encode}

abbrev people : Schema
people = record {
  columns =
      record {
        name = 105 ∷ [];
        type = LogicalType.int32;
        nullable = true;
        primary_key = false;
        string_capacity = 0;
      }
      ∷ record {
        name = 110 ∷ [];
        type = LogicalType.string;
        nullable = false;
        primary_key = false;
        string_capacity = 4;
      }
      ∷ [];
}

abbrev hi : Row
hi = record { values = Value.int32 (pos 258) ∷ Value.string (104 ∷ 105 ∷ []) ∷ [] }

abbrev encoded_hi : Bytes
encoded_hi = 2 ∷ 0 ∷ 0 ∷ 0 ∷ 0 ∷ 0 ∷ 0 ∷ 0 ∷ 2 ∷ 1 ∷ 0 ∷ 0 ∷ 104 ∷ 105 ∷ 0 ∷ 0 ∷ []

encode-hi : encode people hi ≡ ok encoded_hi
unfolding encode encoded_size align_to null_bitmap_size end_of_values replicate peek poke copy_in
    check_values check_value mark_nulls mark_null write_values write_value write_uint32
encode-hi = refl

bytes_hi : AreBytes (104 ∷ 105 ∷ [])
bytes_hi zero = omega arith
bytes_hi (suc zero) = omega arith
bytes_hi (suc (suc i)) = omega arith

hi-AllRepresentable : AllRepresentable hi.values
hi-AllRepresentable = (omega arith, (bytes_hi, tt))

decode-encode_example : decode people encoded_hi ≡ ok (record { values = map cut hi.values })
decode-encode_example =
    decode-encode people hi encoded_hi (omega arith) (omega arith) hi-AllRepresentable encode-hi

encode-total_example :
    (AllFit people.columns hi.values
      × ((q : Bytes) × (encode people hi ≡ ok q) × IsEncoded people hi.values q))
    ⊎ ((¬ AllFit people.columns hi.values) × (encode people hi ≡ err invalid_argument))
encode-total_example = encode-total people hi (omega arith) hi-AllRepresentable

align_to_least_example :
    (13 ≤ align_to 13 8)
    × (align_to 13 8 % 8 ≡ 0)
    × (align_to 13 8 < 2 ^ 64)
    × ((1 * 8 < 13) ⊎ (align_to 13 8 ≤ 1 * 8))
align_to_least_example = align_to_least 13 8 1 (omega arith) (omega arith)

from_code-code_example :
    logical_type_from_code (logical_type_code LogicalType.int64) ≡ ok LogicalType.int64
from_code-code_example = from_code-code LogicalType.int64

int32_code : logical_type_from_code 3 ≡ ok LogicalType.int32
unfolding logical_type_from_code
int32_code = refl

code-from_code_example : logical_type_code LogicalType.int32 ≡ 3
code-from_code_example = code-from_code 3 LogicalType.int32 int32_code

read-write_example :
    ((write_uint16 (replicate 12 0) 3 258 >>= λ q. read_uint16 q 3) ≡ ok 258)
    × ((write_uint32 (replicate 12 0) 3 70000 >>= λ q. read_uint32 q 3) ≡ ok 70000)
    × ((write_uint64 (replicate 12 0) 3 5000000000 >>= λ q. read_uint64 q 3) ≡ ok 5000000000)
read-write_example =
    read-write (replicate 12 0) 3 258 70000 5000000000 (AreBytes-replicate 12)
      (omega (arith, length-replicate {A = ℕ} 12 0)) (omega arith) (omega arith) (omega arith)
