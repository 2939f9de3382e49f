-- ===== src/Record/Codec/Written.antt =====
-- The branches that write a value, as one copy of its payload.
use relational_db_engine.Common.{
  ℕ, zero, suc, ◌+◌, ◌≤◌, ◌<◌, ◌≡◌, refl, ◌∙◌, [], ◌∷◌, Bool, true, false, length, get_or, set,
  arith,
}
use relational_db_engine.Common.Int.{to_unsigned}
use relational_db_engine.Core.Status.{ok}
use relational_db_engine.Core.Memory.{Bytes, AreBytes}
use relational_db_engine.Core.Memory.Splice.{
  splice, get_or-splice_after, get_or-splice_inside, slice-splice_self, copy_in-splice, poke-set,
  first_at,
}
use relational_db_engine.Core.Helper.{write_double}
use relational_db_engine.Core.Helper.LittleEndian.{
  length-le_bytes, AreBytes-le_bytes, uint-splice_self, write_uint32-lem, write_uint64-lem,
}
use relational_db_engine.Record.Value.{
  Value, boolean, byte, int32, int64, double_value, string, null, type,
}
use relational_db_engine.Record.Layout.{size_of}
use relational_db_engine.Record.Codec.{write_value, bool_byte, too_long}
use relational_db_engine.Record.Codec.Stored.{IsRepresentable, Stored, payload}

-- A short value: its payload fits in the field.
pub length-payload :
    (capacity : ℕ) (v : Value)
    → too_long v capacity ≡ false
    → IsRepresentable v
    → length (payload v) ≤ size_of (type v) capacity
unfolding payload
length-payload c (boolean b) f r = omega arith
length-payload c (byte z) f r = omega arith
length-payload c (int32 z) f r = omega (arith, length-le_bytes 4 (to_unsigned 32 z))
length-payload c (int64 z) f r = omega (arith, length-le_bytes 8 (to_unsigned 64 z))
length-payload c (double_value bytes) f r = omega (arith, r.0)
length-payload c (string s) f r = ground arith
length-payload c (null t) f r = omega arith

bool_byte-lt : (b : Bool) → bool_byte b < 256
bool_byte-lt true = omega arith
bool_byte-lt false = omega arith

one_byte : (b : ℕ) → b < 256 → AreBytes (b ∷ [])
one_byte b h zero = h
one_byte b h (suc i) = omega arith

pub AreBytes-payload : (v : Value) → IsRepresentable v → AreBytes (payload v)
unfolding payload
AreBytes-payload (boolean b) r = one_byte _ (bool_byte-lt b)
AreBytes-payload (byte z) r = one_byte _ (ground arith)
AreBytes-payload (int32 z) r = AreBytes-le_bytes 4 _
AreBytes-payload (int64 z) r = AreBytes-le_bytes 8 _
AreBytes-payload (double_value bytes) r = r.1
AreBytes-payload (string s) r = r
AreBytes-payload (null t) r = λ i. omega arith

poke_one : (p : Bytes) (at b : ℕ) → at < length p → set p at b ≡ splice p at (b ∷ [])
unfolding splice
poke_one p at b h = refl

pub write_value-payload :
    (p : Bytes) (at capacity : ℕ) (v : Value)
    → too_long v capacity ≡ false
    → IsRepresentable v
    → at + size_of (type v) capacity ≤ length p
    → write_value p at v ≡ ok (splice p at (payload v))
unfolding write_value payload write_double splice
write_value-payload p at c (boolean b) f r h = poke-set p at _ (omega arith)
write_value-payload p at c (byte z) f r h = poke-set p at _ (omega arith)
write_value-payload p at c (int32 z) f r h = write_uint32-lem p at _ h
write_value-payload p at c (int64 z) f r h = write_uint64-lem p at _ h
write_value-payload p at c (double_value bytes) f r h =
    copy_in-splice p at bytes (omega (arith, r.0))
write_value-payload p at c (string s) f r h = copy_in-splice p at s (ground arith)
write_value-payload p at c (null t) f r h = refl

module _ (p : Bytes) (at : ℕ) where
  spliced_first : (b : ℕ) → at < length p → get_or (splice p at (b ∷ [])) at 0 ≡ b
  spliced_first b h =
      first_at _ (b ∷ []) at 0 (get_or-splice_inside p at (b ∷ []) 0 (omega arith) (omega arith))

  spliced_rest :
      (xs : Bytes) (j : ℕ)
      → ((i : ℕ) → at ≤ i → get_or p i 0 ≡ 0)
      → length xs ≤ j
      → get_or (splice p at xs) (at + j) 0 ≡ 0
  spliced_rest xs j z h =
      get_or-splice_after p at xs (at + j) (omega arith) ∙ z (at + j) (omega arith)

-- On zeroed memory the field then holds the value.
pub Stored-written :
    (p : Bytes) (at capacity : ℕ) (v : Value)
    → too_long v capacity ≡ false
    → IsRepresentable v
    → at + size_of (type v) capacity ≤ length p
    → ((i : ℕ) → at ≤ i → get_or p i 0 ≡ 0)
    → Stored (splice p at (payload v)) at capacity v
unfolding payload
Stored-written p at c (boolean b) f r h z = spliced_first p at _ (omega arith)
Stored-written p at c (byte n) f r h z = spliced_first p at _ (omega arith)
Stored-written p at c (int32 n) f r h z = uint-splice_self p at _ 4 (ground arith) h
Stored-written p at c (int64 n) f r h z = uint-splice_self p at _ 8 (ground arith) h
Stored-written p at c (double_value bytes) f r h z =
    rw (← r.0) (slice-splice_self p at bytes (omega (arith, r.0)))
Stored-written p at c (string s) f r h z =
    (slice-splice_self p at s (ground arith), λ j l m. spliced_rest p at s j z l)
Stored-written p at c (null t) f r h z = λ j l. spliced_rest p at [] j z (omega arith)
