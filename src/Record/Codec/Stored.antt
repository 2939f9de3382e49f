-- ===== src/Record/Codec/Stored.antt =====
-- What the bytes of a field hold, and what writeValue's branches write there.
use relational_db_engine.Common.{
  ℕ, ◌+◌, ◌≤◌, ◌<◌, ◌≡◌, sym, ◌∙◌, [], ◌∷◌, false, length, get_or, arith,
}
use relational_db_engine.Common.Int.{IsInt, to_unsigned}
use relational_db_engine.Core.Memory.{Bytes, AreBytes}
use relational_db_engine.Core.Memory.Splice.{slice, slice_ext, first_at}
use relational_db_engine.Core.Helper.LittleEndian.{uint, uint_ext, le_bytes}
use relational_db_engine.Record.Value.{
  Value, boolean, byte, int32, int64, double_value, string, null, type,
}
use relational_db_engine.Record.Layout.{size_of}
use relational_db_engine.Record.Codec.{bool_byte, too_long}

-- The values that the C++ types of the payloads can hold.
abbrev pub IsRepresentable : Value → Type 0
IsRepresentable (boolean b) = Unit {0}
IsRepresentable (byte z) = IsInt 7 z
IsRepresentable (int32 z) = IsInt 31 z
IsRepresentable (int64 z) = IsInt 63 z
IsRepresentable (double_value bytes) = (length bytes ≡ 8) × AreBytes bytes
IsRepresentable (string s) = AreBytes s
IsRepresentable (null t) = Unit {0}

-- The field at `at` of a column of the capacity holds the value.
abbrev pub Stored : Bytes → ℕ → ℕ → Value → Type 0
Stored p at capacity (boolean b) = get_or p at 0 ≡ bool_byte b
Stored p at capacity (byte z) = get_or p at 0 ≡ to_unsigned 8 z
Stored p at capacity (int32 z) = uint 4 p at ≡ to_unsigned 32 z
Stored p at capacity (int64 z) = uint 8 p at ≡ to_unsigned 64 z
Stored p at capacity (double_value bytes) = slice p at 8 ≡ bytes
Stored p at capacity (string s) =
    (slice p at (length s) ≡ s) × ((j : ℕ) → length s ≤ j → j < capacity → get_or p (at + j) 0 ≡ 0)
Stored p at capacity (null t) = (j : ℕ) → j < size_of t capacity → get_or p (at + j) 0 ≡ 0

-- Bytes outside of the field do not matter.
pub Stored-agree :
    (p q : Bytes) (at capacity : ℕ) (v : Value)
    → too_long v capacity ≡ false
    → ((j : ℕ) → j < size_of (type v) capacity → get_or p (at + j) 0 ≡ get_or q (at + j) 0)
    → Stored p at capacity v
    → Stored q at capacity v
Stored-agree p q at c (boolean b) f h s = first_at q p at at (sym (h 0 (omega arith))) ∙ s
Stored-agree p q at c (byte z) f h s = first_at q p at at (sym (h 0 (omega arith))) ∙ s
Stored-agree p q at c (int32 z) f h s = uint_ext 4 q p at (λ k l. sym (h k l)) ∙ s
Stored-agree p q at c (int64 z) f h s = uint_ext 8 q p at (λ k l. sym (h k l)) ∙ s
Stored-agree p q at c (double_value bytes) f h s = slice_ext q p at at 8 (λ k l. sym (h k l)) ∙ s
Stored-agree p q at c (string t) f h (s, z) = (
  slice_ext q p at at (length t) (λ k l. sym (h k (short k l))) ∙ s,
  λ j l m. sym (h j m) ∙ z j l m,
)
  where
    short : (k : ℕ) → k < length t → k < c
    short k l = ground arith
Stored-agree p q at c (null t) f h s = λ j l. sym (h j l) ∙ s j l

-- What a value puts into its field.
unfoldable pub payload : Value → Bytes
payload (boolean b) = bool_byte b ∷ []
payload (byte z) = to_unsigned 8 z ∷ []
payload (int32 z) = le_bytes 4 (to_unsigned 32 z)
payload (int64 z) = le_bytes 8 (to_unsigned 64 z)
payload (double_value bytes) = bytes
payload (string s) = s
payload (null t) = []
