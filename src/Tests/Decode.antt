-- ===== src/Tests/Decode.antt =====
-- The theorems at concrete inputs: the bytes of a row of one number.
use relational_db_engine.Common.{zero, suc, ◌≡◌, refl, [], ◌∷◌, Bool, true, false, ◌&&◌, ltb, arith}
use relational_db_engine.Common.Int.{pos}
use relational_db_engine.Core.Status.{ok}
use relational_db_engine.Core.Memory.{Bytes, AreBytes, peek}
use relational_db_engine.Core.Helper.{read_uint32}
use relational_db_engine.Record.LogicalType.{LogicalType}
use relational_db_engine.Record.Schema.{Schema}
use relational_db_engine.Record.Value.{Value, Row}
use relational_db_engine.Record.Layout.{align_to, null_bitmap_size, end_of_values, encoded_size}
use relational_db_engine.Record.Codec.{encode, decode}
use relational_db_engine.Record.Codec.Decode.{Total, AllClean, decode-Total, encode-decode}

abbrev numbers : Schema
numbers = record {
  columns =
      record {
        name = 110 ∷ [];
        type = LogicalType.int32;
        nullable = true;
        primary_key = false;
        string_capacity = 0;
      }
      ∷ [];
}

-- One value, no null, and 7.
abbrev bytes : Bytes
bytes = 1 ∷ 0 ∷ 0 ∷ 0 ∷ 0 ∷ 0 ∷ 0 ∷ 0 ∷ 7 ∷ 0 ∷ 0 ∷ 0 ∷ 0 ∷ 0 ∷ 0 ∷ 0 ∷ []

abbrev seven : Row
seven = record { values = Value.int32 (pos 7) ∷ [] }

abbrev pub all_below : Bytes → Bool
all_below [] = true
all_below (x ∷ xs) = ltb x 256 && all_below xs

pub all_below-AreBytes : (p : Bytes) → all_below p ≡ true → AreBytes p
all_below-AreBytes [] e i = omega arith
all_below-AreBytes (x ∷ p) e zero = ground arith
all_below-AreBytes (x ∷ p) e (suc i) = all_below-AreBytes p (ground arith) i

decodes : decode numbers bytes ≡ ok seven
unfolding decode encoded_size end_of_values null_bitmap_size align_to peek read_uint32
decodes = refl

decode-Total_example : Total (λ r. AllClean numbers.columns r.values) (decode numbers bytes)
decode-Total_example = decode-Total numbers bytes (all_below-AreBytes bytes refl)

encode-decode_example : (q : Bytes) × (encode numbers seven ≡ ok q) × (decode numbers q ≡ ok seven)
encode-decode_example =
    encode-decode numbers bytes seven (all_below-AreBytes bytes refl) (omega arith) (omega arith)
      decodes
