-- ===== src/Record/Codec/Decode.antt =====
-- decode on any bytes.
use relational_db_engine.Common.{
  ℕ, zero, suc, ◌+◌, ◌-◌, ◌/◌, ◌^◌, ◌≤◌, ◌<◌, ◌≡◌, ◌≢◌, refl, subst, inl, inr, List, [], ◌∷◌, Bool,
  true, false, length, get_or, ltb, ◌==◌, bit_and, Bool-cases, ==_iff, arith,
}
use relational_db_engine.Common.Int.{to_signed, IsInt}
use relational_db_engine.Core.Status.{Result, ok, err, fault, invalid_argument, require, ◌>>=◌}
use relational_db_engine.Core.Memory.{Bytes, AreBytes}
use relational_db_engine.Core.Memory.Splice.{length-slice, peek-get, copy_out-slice, AreBytes-slice}
use relational_db_engine.Core.Helper.{read_double}
use relational_db_engine.Core.Helper.LittleEndian.{uint, uint-lt, read_uint32-lem, read_uint64-lem}
use relational_db_engine.Record.LogicalType.{LogicalType}
use relational_db_engine.Record.Schema.{Column, Schema}
use relational_db_engine.Record.Value.{
  Value, boolean, byte, int32, int64, double_value, string, type, is_null, Row,
}
use relational_db_engine.Record.Layout.{
  size_of, value_size, null_bitmap_size, end_of_values, encoded_size,
}
use relational_db_engine.Record.Codec.{
  read_nulls, check_zeros, read_string, read_value, read_column, read_values, too_long, encode,
  decode, unused_bits_mask,
}
use relational_db_engine.Record.Codec.Stored.{IsRepresentable}
use relational_db_engine.Record.Codec.Values.{
  Fits, AllFit, AllRepresentable, at_field, offset-le-end,
}
use relational_db_engine.Record.Codec.Checks.{AllFit-length}
use relational_db_engine.Record.Codec.Encode.{values_start, size_bounds, encode-total}
use relational_db_engine.Record.Codec.RoundTrip.{
  NoNul, HasNoNul, AllHaveNoNul, decode-encode_no_nul,
}

-- A result with the property, or InvalidArgument: no fault and no other status.
abbrev pub Total : {A : Type 0} → (A → Type 0) → Result A → Type 0
Total P (ok a) = P a
Total P (err c) = c ≡ invalid_argument
Total P fault = ⊥

Total-bind :
    {A B : Type 0} (Q : A → Type 0) (P : B → Type 0) (r : Result A) (k : A → Result B)
    → Total Q r
    → ((a : A) → Q a → Total P (k a))
    → Total P (r >>= k)
Total-bind Q P (ok a) k t rest = rest a t
Total-bind Q P (err c) k t rest = t
Total-bind Q P fault k t rest = t

Total-require : (b : Bool) → Total (λ u. b ≡ true) (require b invalid_argument)
Total-require true = refl
Total-require false = refl

IsString : ℕ → Bytes → Type 0
IsString capacity s = (length s ≤ capacity) × AreBytes s × NoNul s

cons-AreBytes : (x : ℕ) (xs : Bytes) → x < 256 → AreBytes xs → AreBytes (x ∷ xs)
cons-AreBytes x xs h bs zero = h
cons-AreBytes x xs h bs (suc i) = bs i

nil-AreBytes : AreBytes []
nil-AreBytes i = omega arith

nonzero : (x : ℕ) → (x == 0) ≡ false → x ≢ 0
nonzero x e r = ground (arith, r)

module _ (p : Bytes) (bs : AreBytes p) where
  read_string-Total :
      (at capacity : ℕ)
      → at + capacity ≤ length p
      → Total (IsString capacity) (read_string p at capacity)
  unfolding read_string IsString
  read_string-Total at zero h = (omega arith, nil-AreBytes, tt)
  read_string-Total at (suc capacity) h =
      rw (peek-get p at (omega arith)) (elim (Bool-cases (get_or p at 0 == 0)) [
        | inl ends ↦ rw ends (omega arith, nil-AreBytes, tt)
        | inr more ↦ rw more (
            Total-bind (IsString capacity) _ (read_string p (suc at) capacity) _
              (read_string-Total (suc at) capacity (omega arith))
              λ s (l, b, n). (
                omega arith,
                cons-AreBytes (get_or p at 0) s (bs at) b,
                (nonzero (get_or p at 0) more, n),
              ))
      ])

  check_zeros-Total : (at n : ℕ) → at + n ≤ length p → Total (λ u. Unit {0}) (check_zeros p at n)
  unfolding check_zeros
  check_zeros-Total at zero h = tt
  check_zeros-Total at (suc n) h = rw (peek-get p at (omega arith)) (
      Total-bind _ _ (require (get_or p at 0 == 0) invalid_argument) _
        (Total-require (get_or p at 0 == 0)) λ u z. check_zeros-Total (suc at) n (omega arith))

  read_nulls-Total :
      (offset i : ℕ) (cols : List Column)
      → ((j : ℕ) → j < i + length cols → offset + j / 8 < length p)
      → Total (λ bits. length bits ≡ length cols) (read_nulls p offset i cols)
  unfolding read_nulls
  read_nulls-Total offset i [] h = refl
  read_nulls-Total offset i (col ∷ cols) h = rw (peek-get p (offset + i / 8) (h i (omega arith))) (
      Total-bind _ _ (read_nulls p offset (suc i) cols) _
        (read_nulls-Total offset (suc i) cols (λ j l. h j (omega arith))) λ bits e. omega arith)

signed8 : (x : ℕ) → x < 256 → IsInt 7 (to_signed 7 x)
signed8 x h = ground arith

signed32 : (x : ℕ) → x < 256 ^ 4 → IsInt 31 (to_signed 31 x)
signed32 x h = ground arith

signed64 : (x : ℕ) → x < 256 ^ 8 → IsInt 63 (to_signed 63 x)
signed64 x h = ground arith

-- A value that fits its column, that the C++ type of its payload can hold, and without a NUL.
abbrev Clean : Column → Value → Type 0
Clean col v = Fits col v × IsRepresentable v × HasNoNul v

abbrev pub AllClean : List Column → List Value → Type 0
AllClean cols vals = AllFit cols vals × AllRepresentable vals × AllHaveNoNul vals

not_long : (s : Bytes) (capacity : ℕ) → length s ≤ capacity → ltb capacity (length s) ≡ false
not_long s capacity h = ground arith

module _ (p : Bytes) (bs : AreBytes p) (at : ℕ) where
  present :
      (col : Column) (v : Value)
      → type v ≡ col.type
      → is_null v ≡ false
      → too_long v col.string_capacity ≡ false
      → Fits col v
  present col v t n f = record { typed = t; nulls = λ e. cc; short = f }

  read_value-Total :
      (col : Column) (t : LogicalType)
      → t ≡ col.type
      → at + size_of t col.string_capacity ≤ length p
      → Total (Clean col) (read_value p at t col.string_capacity)
  unfolding read_value read_double IsString
  read_value-Total col LogicalType.boolean e h =
      rw (peek-get p at (omega arith)) (present col (boolean _) e refl refl, tt, tt)
  read_value-Total col LogicalType.byte e h =
      rw (peek-get p at (omega arith))
        (present col (byte _) e refl refl, signed8 (get_or p at 0) (bs at), tt)
  read_value-Total col LogicalType.int32 e h =
      rw (read_uint32-lem p at bs h)
        (present col (int32 _) e refl refl, signed32 (uint 4 p at) (uint-lt 4 p at bs), tt)
  read_value-Total col LogicalType.int64 e h =
      rw (read_uint64-lem p at bs h)
        (present col (int64 _) e refl refl, signed64 (uint 8 p at) (uint-lt 8 p at bs), tt)
  read_value-Total col LogicalType.double e h = rw (copy_out-slice p at 8 h) (
    present col (double_value _) e refl refl,
    (length-slice p at 8, AreBytes-slice p at 8 bs),
    tt,
  )
  read_value-Total col LogicalType.string e h =
      Total-bind (IsString col.string_capacity) _ (read_string p at col.string_capacity) _
        (read_string-Total p bs at col.string_capacity h)
        λ s (l, b, n). (present col (string s) e refl (not_long s col.string_capacity l), b, n)

  read_column-Total :
      (col : Column) (is_null : Bool)
      → at + value_size col ≤ length p
      → Total (Clean col) (read_column p at col is_null)
  unfolding read_column
  read_column-Total col true h =
      Total-bind _ _ (require col.nullable invalid_argument) _ (Total-require col.nullable) λ u n.
        Total-bind _ _ (check_zeros p at (value_size col)) _
          (check_zeros-Total p bs at (value_size col) h)
          λ u' z. (record { typed = refl; nulls = λ e. n; short = refl }, tt, tt)
  read_column-Total col false h = read_value-Total col col.type refl h

read_values-Total :
    (p : Bytes) (bs : AreBytes p) (offset : ℕ) (cols : List Column) (nulls : List Bool)
    → length nulls ≡ length cols
    → end_of_values offset cols ≤ length p
    → Total (AllClean cols) (read_values p offset cols nulls)
unfolding read_values end_of_values
read_values-Total p bs offset [] [] e h = (tt, tt, tt)
read_values-Total p bs offset [] (b ∷ nulls) e h = absurd (omega arith)
read_values-Total p bs offset (col ∷ cols) [] e h = absurd (omega arith)
read_values-Total p bs offset (col ∷ cols) (b ∷ nulls) e h =
    let at = at_field offset col in
    let later = offset-le-end (at + value_size col) cols in
    Total-bind (Clean col) _ (read_column p at col b) _
      (read_column-Total p bs at col b (omega (arith, later)))
      λ v (f, r, n).
        Total-bind (AllClean cols) _ (read_values p (at + value_size col) cols nulls) _
          (read_values-Total p bs (at + value_size col) cols nulls (omega arith) h)
          λ vs (fs, rs, ns). ((f, fs), (r, rs), (n, ns))

-- decode of any bytes: the result is InvalidArgument, or a row of values that fit their columns, that
-- the C++ types of their payloads can hold, and whose strings have no NUL character. No access leaves
-- the buffer.
pub decode-Total :
    (schema : Schema) (row : Bytes)
    → AreBytes row
    → Total (λ r. AllClean schema.columns r.values) (decode schema row)
unfolding decode
decode-Total schema row bs =
    let n = length schema.columns in
    Total-bind _ _ (require (encoded_size schema == length row) invalid_argument) _
      (Total-require _)
      λ u size.
        let whole : encoded_size schema ≡ length row =
          (==_iff (encoded_size schema) (length row)).0 size in
        let bounds = size_bounds schema in
        let bits : (j : ℕ) → j < 0 + n → 1 + j / 8 < length row =
          λ j l. unfold null_bitmap_size in omega (arith, bounds) in
        rw (peek-get row 0 (omega (arith, bounds))) (
          Total-bind _ _ (require (get_or row 0 0 == n) invalid_argument) _ (Total-require _)
            λ u1 e1.
              Total-bind _ _ (read_nulls row 1 0 schema.columns) _
                (read_nulls-Total row bs 1 0 schema.columns bits)
                λ nulls e2. rw (peek-get row (1 + null_bitmap_size n - 1) (omega (arith, bounds))) (
                  Total-bind _ _
                    (require
                      (bit_and (get_or row (1 + null_bitmap_size n - 1) 0) (unused_bits_mask n)
                        == 0)
                      invalid_argument)
                    _ (Total-require _)
                    λ u2 e3.
                      Total-bind (AllClean schema.columns) _
                        (read_values row (values_start n) schema.columns nulls) _
                        (read_values-Total row bs (values_start n) schema.columns nulls e2
                          (rw (← whole) bounds.0))
                        λ vs clean. clean))

-- A row that decode makes of bytes, for a schema of 1 to 255 columns, encode takes, and decode makes
-- the same row of what encode returns.
pub encode-decode :
    (schema : Schema) (bytes : Bytes) (row : Row)
    → AreBytes bytes
    → 0 < length schema.columns
    → length schema.columns ≤ 255
    → decode schema bytes ≡ ok row
    → (q : Bytes) × (encode schema row ≡ ok q) × (decode schema q ≡ ok row)
encode-decode schema bytes row bs some few e =
    let (fits, rep, clean) =
      subst (Total (λ (r : Row). AllClean schema.columns r.values)) e
        (decode-Total schema bytes bs) in
    let same = AllFit-length schema.columns row.values fits in
    elim (encode-total schema row (omega (arith, same)) rep) [
      | inl (f, (q, made, c)) ↦ (
        q,
        made,
        decode-encode_no_nul schema row q (omega (arith, same)) (omega (arith, same)) rep clean
            made,
      )
      | inr (bad, r) ↦ absurd (bad fits)
    ]
