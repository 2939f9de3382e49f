-- ===== src/Record/Codec/ReadBack.antt =====
-- decode's reads, on a buffer whose fields hold the values.
use relational_db_engine.Common.{
  ℕ, zero, suc, ◌+◌, ◌/◌, ◌≤◌, ◌<◌, ◌≡◌, refl, ap, sym, List, [], ◌∷◌, map, Bool, true, false, not,
  length, get_or, arith, ◌==◌, if◌then◌else◌,
}
use relational_db_engine.Common.Bits.{bit_of}
use relational_db_engine.Common.Int.{
  to_signed-to_unsigned8, to_signed-to_unsigned32, to_signed-to_unsigned64,
}
use relational_db_engine.Core.Status.{ok}
use relational_db_engine.Core.Memory.{Bytes, AreBytes}
use relational_db_engine.Core.Memory.Splice.{slice, peek-get, copy_out-slice, first_at}
use relational_db_engine.Core.Helper.{read_double}
use relational_db_engine.Core.Helper.LittleEndian.{read_uint32-lem, read_uint64-lem}
use relational_db_engine.Record.LogicalType.{LogicalType}
use relational_db_engine.Record.Schema.{Column}
use relational_db_engine.Record.Value.{
  Value, boolean, byte, int32, int64, double_value, string, null, type, is_null,
}
use relational_db_engine.Record.Layout.{size_of, value_size, end_of_values}
use relational_db_engine.Record.Codec.{
  read_nulls, check_zeros, read_string, read_value, read_column, read_values, too_long,
}
use relational_db_engine.Record.Codec.Stored.{IsRepresentable, Stored}
use relational_db_engine.Record.Codec.Values.{
  Fits, AllFit, AllRepresentable, AllStored, at_field, offset-le-end,
}
use relational_db_engine.Record.Codec.Bitmap.{bit_at, flag, null_bit}

-- A string up to its first NUL character.
abbrev pub up_to_nul : Bytes → Bytes
up_to_nul [] = []
up_to_nul (ch ∷ s) = if ch == 0 then [] else (ch ∷ up_to_nul s)

-- What decode makes of an encoded value.
abbrev pub cut : Value → Value
cut (string s) = string (up_to_nul s)
cut v = v

abbrev rest_of : Bytes → Bytes
rest_of [] = []
rest_of (x ∷ xs) = xs

read_string-lem :
    (p : Bytes) (at capacity : ℕ) (s : Bytes)
    → at + capacity ≤ length p
    → length s ≤ capacity
    → slice p at (length s) ≡ s
    → (length s < capacity → get_or p (at + length s) 0 ≡ 0)
    → read_string p at capacity ≡ ok (up_to_nul s)
unfolding read_string slice
read_string-lem p at zero [] b l e z = refl
read_string-lem p at zero (ch ∷ s) b l e z = absurd (omega arith)
read_string-lem p at (suc c) [] b l e z =
    let ends : get_or p at 0 ≡ 0 = first_at p [] at 0 (z (omega arith)) in
    rw (peek-get p at (omega arith), ends)
read_string-lem p at (suc c) (ch ∷ s) b l e z =
    let head : get_or p at 0 ≡ ch = ap (λ (l : Bytes). get_or l 0 0) e in
    let next : suc at + length s ≡ at + suc (length s) = omega arith in
    rw
      (
        peek-get p at (omega arith),
        head,
        read_string-lem p (suc at) c s (omega arith) (omega arith) (ap rest_of e)
            (λ m. rw next (z (omega arith))),
      )
      (ground arith)

check_zeros-lem :
    (p : Bytes) (at n : ℕ)
    → at + n ≤ length p
    → ((j : ℕ) → j < n → get_or p (at + j) 0 ≡ 0)
    → check_zeros p at n ≡ ok tt
unfolding check_zeros
check_zeros-lem p at zero b z = refl
check_zeros-lem p at (suc n) b z =
    let head : get_or p at 0 ≡ 0 = first_at p [] at 0 (z 0 (omega arith)) in
    rw (
      peek-get p at (omega arith),
      head,
      check_zeros-lem p (suc at) n (omega arith) λ j l.
          let next : suc at + j ≡ at + suc j = omega arith in rw next (z (suc j) (omega arith)),
    )

module _ (p : Bytes) (at c : ℕ) (bs : AreBytes p) where
  read_value-lem :
      (v : Value)
      → is_null v ≡ false
      → too_long v c ≡ false
      → IsRepresentable v
      → at + size_of (type v) c ≤ length p
      → Stored p at c v
      → read_value p at (type v) c ≡ ok (cut v)
  unfolding read_value read_double
  read_value-lem (boolean true) n f r h s = rw (peek-get p at (omega arith), s)
  read_value-lem (boolean false) n f r h s = rw (peek-get p at (omega arith), s)
  read_value-lem (byte z) n f r h s =
      rw (peek-get p at (omega arith), s) (ap (λ z. ok (byte z)) (to_signed-to_unsigned8 z r))
  read_value-lem (int32 z) n f r h s =
      rw (read_uint32-lem p at bs h, s) (ap (λ z. ok (int32 z)) (to_signed-to_unsigned32 z r))
  read_value-lem (int64 z) n f r h s =
      rw (read_uint64-lem p at bs h, s) (ap (λ z. ok (int64 z)) (to_signed-to_unsigned64 z r))
  read_value-lem (double_value bytes) n f r h s = rw (copy_out-slice p at 8 h, s)
  read_value-lem (string t) n f r h s =
      rw (read_string-lem p at c t h (ground arith) s.0 (λ l. s.1 (length t) (omega arith) l))
  read_value-lem (null t) n f r h s = cc

module _ (p : Bytes) (at : ℕ) (bs : AreBytes p) (col : Column) (v : Value) (f : Fits col v) where
  size_typed : size_of (type v) col.string_capacity ≡ value_size col
  size_typed = ap (λ t. size_of t col.string_capacity) f.typed

  present_column :
      is_null v ≡ false
      → IsRepresentable v
      → at + value_size col ≤ length p
      → Stored p at col.string_capacity v
      → read_column p at col (is_null v) ≡ ok (cut v)
  unfolding read_column
  present_column n r h s =
      rw (n, ← f.typed)
        (read_value-lem p at col.string_capacity bs v n f.short r (omega (arith, size_typed)) s)

null_column :
    (p : Bytes) (at : ℕ) (col : Column) (t : LogicalType)
    → Fits col (null t)
    → at + value_size col ≤ length p
    → Stored p at col.string_capacity (null t)
    → read_column p at col true ≡ ok (null t)
unfolding read_column
null_column p at col t f h s =
    let size : size_of t col.string_capacity ≡ value_size col =
      ap (λ t. size_of t col.string_capacity) f.typed in
    rw (f.nulls refl, check_zeros-lem p at (value_size col) h (λ j l. s j (omega arith)))
      (ap (λ t. ok (null t)) (sym f.typed))

read_column-lem :
    (p : Bytes) (at : ℕ)
    → AreBytes p
    → (col : Column) (v : Value) → Fits col v
    → IsRepresentable v
    → at + value_size col ≤ length p
    → Stored p at col.string_capacity v
    → read_column p at col (is_null v) ≡ ok (cut v)
read_column-lem p at bs col (null t) f r h s = null_column p at col t f h s
read_column-lem p at bs col (boolean b) f r h s =
    present_column p at bs col (boolean b) f refl r h s
read_column-lem p at bs col (byte z) f r h s = present_column p at bs col (byte z) f refl r h s
read_column-lem p at bs col (int32 z) f r h s = present_column p at bs col (int32 z) f refl r h s
read_column-lem p at bs col (int64 z) f r h s = present_column p at bs col (int64 z) f refl r h s
read_column-lem p at bs col (double_value d) f r h s =
    present_column p at bs col (double_value d) f refl r h s
read_column-lem p at bs col (string t) f r h s = present_column p at bs col (string t) f refl r h s

pub read_values-lem :
    (p : Bytes) (offset : ℕ) (cols : List Column) (vals : List Value)
    → AreBytes p
    → AllFit cols vals
    → AllRepresentable vals
    → end_of_values offset cols ≤ length p
    → AllStored p offset cols vals
    → read_values p offset cols (map is_null vals) ≡ ok (map cut vals)
unfolding read_values end_of_values
read_values-lem p o [] [] bs f r h s = refl
read_values-lem p o [] (v ∷ vals) bs f r h s = absurd f
read_values-lem p o (col ∷ cols) [] bs f r h s = absurd f
read_values-lem p o (col ∷ cols) (v ∷ vals) bs f r h s =
    let next = at_field o col + value_size col in
    rw (
      read_column-lem p (at_field o col) bs col v f.0 r.0 (omega (arith, offset-le-end next cols))
          s.0,
      read_values-lem p next cols vals bs f.1 r.1 h s.1,
    )

bit_test : (b : Bool) → not (null_bit b == 0) ≡ b
bit_test true = refl
bit_test false = refl

pub read_nulls-lem :
    (p : Bytes) (i : ℕ) (cols : List Column) (vals : List Value)
    → length vals ≡ length cols
    → 1 + (i + length cols + 7) / 8 ≤ length p
    → ((k : ℕ) → k < length cols → bit_at p (i + k) ≡ flag vals k)
    → read_nulls p 1 i cols ≡ ok (map is_null vals)
unfolding read_nulls bit_at bit_of
read_nulls-lem p i [] [] e h z = refl
read_nulls-lem p i [] (v ∷ vals) e h z = absurd (omega arith)
read_nulls-lem p i (col ∷ cols) [] e h z = absurd (omega arith)
read_nulls-lem p i (col ∷ cols) (v ∷ vals) e h z =
    let here : i + 0 ≡ i = omega arith in
    let bit : bit_at p i ≡ null_bit (is_null v) = rw here at (z 0 (omega arith)) in
    rw
      (
        peek-get p (1 + i / 8) (omega arith),
        bit,
        read_nulls-lem p (suc i) cols vals (omega arith) (omega arith) λ k l.
            let next : suc i + k ≡ i + suc k = omega arith in rw next (z (suc k) (omega arith)),
      )
      (ap (λ b. ok (b ∷ map is_null vals)) (bit_test (is_null v)))
