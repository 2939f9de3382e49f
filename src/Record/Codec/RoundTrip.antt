-- ===== src/Record/Codec/RoundTrip.antt =====
-- decode after encode.
use relational_db_engine.Common.{
  ℕ, zero, suc, ◌+◌, ◌-◌, ◌*◌, ◌/◌, ◌%◌, ◌≤◌, ◌<◌, ◌≡◌, ◌≢◌, refl, ap, sym, ◌∙◌, ◌⊎◌, inl, inr,
  List, [], ◌∷◌, map, length, get_or, arith, ==_ne, ==_iff, bit_and,
}
use relational_db_engine.Common.Bits.{bit_of, bit_and-high_mask, bit_and-zero}
use relational_db_engine.Core.Status.{ok}
use relational_db_engine.Core.Memory.{Bytes}
use relational_db_engine.Core.Memory.Splice.{peek-get}
use relational_db_engine.Record.Schema.{Schema}
use relational_db_engine.Record.Value.{Value, string, Row}
use relational_db_engine.Record.Layout.{null_bitmap_size, encoded_size}
use relational_db_engine.Record.Codec.{encode, decode, unused_bits_mask}
use relational_db_engine.Record.Codec.Values.{AllFit, AllRepresentable}
use relational_db_engine.Record.Codec.Bitmap.{bit_at, flag}
use relational_db_engine.Record.Codec.Checks.{AllFit-length}
use relational_db_engine.Record.Codec.Encode.{IsEncoded, values_start, size_bounds, encode-total}
use relational_db_engine.Record.Codec.ReadBack.{up_to_nul, cut, read_values-lem, read_nulls-lem}

flag_past : (vals : List Value) (j : ℕ) → length vals ≤ j → flag vals j ≡ 0
flag_past [] j h = refl
flag_past (v ∷ vals) zero h = absurd (omega arith)
flag_past (v ∷ vals) (suc j) h = flag_past vals j (omega arith)

module _ (schema : Schema) (vals : List Value) (q : Bytes) (c : IsEncoded schema vals q)
    (fits : AllFit schema.columns vals) (some_columns : 0 < length vals)
    (small : length vals ≤ 255) where
  same : length vals ≡ length schema.columns
  same = AllFit-length schema.columns vals fits

  long_enough : 1 + null_bitmap_size (length schema.columns) ≤ length q
  long_enough = omega (arith, size_bounds schema, c.size)

  bits : (k : ℕ) → k < length schema.columns → bit_at q (0 + k) ≡ flag vals k
  unfolding null_bitmap_size
  bits k h = let e : 0 + k ≡ k = omega arith in rw e (c.flags k (omega (arith, same)))

  -- The last byte of the bitmap, and its bits that stand for no column.
  last_index : ℕ
  last_index = null_bitmap_size (length schema.columns)

  unused_clear :
      (l : ℕ)
      → length schema.columns % 8 ≢ 0
      → length schema.columns % 8 ≤ l
      → l < 8
      → bit_of (get_or q last_index 0) l ≡ 0
  unfolding null_bitmap_size bit_at last_index
  unused_clear l some_unused from below =
      let n = length schema.columns in
      let j : ℕ = 8 * (null_bitmap_size n - 1) + l in
      let byte : 1 + j / 8 ≡ null_bitmap_size n = omega arith in
      let bit : j % 8 ≡ l = omega arith in
      let here : bit_of (get_or q (1 + j / 8) 0) (j % 8) ≡ 0 =
        c.flags j (omega (arith, same)) ∙ flag_past vals j (omega (arith, same)) in
      rw (byte, bit) at here

  unused : bit_and (get_or q last_index 0) (unused_bits_mask (length schema.columns)) ≡ 0
  unused = elim (full_or_not (length schema.columns % 8)) [
    | inl e ↦ rw ((==_iff (length schema.columns % 8) 0).1 e) (bit_and-zero _)
    | inr ne ↦
        rw (==_ne (length schema.columns % 8) 0 ne)
          (bit_and-high_mask _ _ (c.bytes last_index) (omega arith) (λ l. unused_clear l ne))
  ]
    where
      full_or_not : (r : ℕ) → (r ≡ 0) ⊎ (r ≢ 0)
      full_or_not r = omega arith

  pub decode-IsEncoded :
      AllRepresentable vals → decode schema q ≡ ok (record { values = map cut vals })
  unfolding decode last_index
  decode-IsEncoded rep =
      let n = length schema.columns in
      let last : 1 + null_bitmap_size n - 1 ≡ null_bitmap_size n = omega arith in
      rw (
        (==_iff (encoded_size schema) (length q)).1 (sym c.size),
        peek-get q 0 (omega (arith, long_enough)),
        c.first,
        same,
        (==_iff n n).1 refl,
        read_nulls-lem q 0 schema.columns vals same
            (unfold null_bitmap_size in omega (arith, long_enough)) bits,
        last,
        peek-get q (null_bitmap_size n) (omega (arith, long_enough)),
        unused,
        read_values-lem q (values_start n) schema.columns vals c.bytes fits rep
            (rw c.size (size_bounds schema).0) (rw (← same) c.stored),
      )

-- What encode returns for a row of 1 to 255 representable values, decode turns into that row with
-- each string cut at its first NUL character.
pub decode-encode :
    (schema : Schema) (row : Row) (q : Bytes)
    → 0 < length row.values
    → length row.values ≤ 255
    → AllRepresentable row.values
    → encode schema row ≡ ok q
    → decode schema q ≡ ok (record { values = map cut row.values })
decode-encode schema row q some_columns small rep e = elim (encode-total schema row small rep) [
  | inr (bad, r) ↦ cc
  | inl (fits, (p, r, c)) ↦
      let same_bytes : p ≡ q = ground arith in
      rw (← same_bytes) (decode-IsEncoded schema row.values p c fits some_columns small rep)
]

abbrev pub NoNul : Bytes → Type 0
NoNul [] = Unit {0}
NoNul (ch ∷ s) = (ch ≢ 0) × NoNul s

abbrev pub HasNoNul : Value → Type 0
HasNoNul (string s) = NoNul s
HasNoNul _ = Unit {0}

-- No string of the row holds a NUL character.
abbrev pub AllHaveNoNul : List Value → Type 0
AllHaveNoNul [] = Unit {0}
AllHaveNoNul (v ∷ vs) = HasNoNul v × AllHaveNoNul vs

up_to_nul-NoNul : (s : Bytes) → NoNul s → up_to_nul s ≡ s
up_to_nul-NoNul [] h = refl
up_to_nul-NoNul (ch ∷ s) h = rw (==_ne ch 0 h.0, up_to_nul-NoNul s h.1)

cut-HasNoNul : (v : Value) → HasNoNul v → cut v ≡ v
cut-HasNoNul (string s) h = ap string (up_to_nul-NoNul s h)
cut-HasNoNul _ h = refl

map-cut : (vs : List Value) → AllHaveNoNul vs → map cut vs ≡ vs
map-cut [] h = refl
map-cut (v ∷ vs) h = rw (cut-HasNoNul v h.0, map-cut vs h.1)

-- So a row with no NUL character in its strings survives encode and decode.
pub decode-encode_no_nul :
    (schema : Schema) (row : Row) (q : Bytes)
    → 0 < length row.values
    → length row.values ≤ 255
    → AllRepresentable row.values
    → AllHaveNoNul row.values
    → encode schema row ≡ ok q
    → decode schema q ≡ ok row
decode-encode_no_nul schema row q some_columns small rep clean e =
    decode-encode schema row q some_columns small rep e
    ∙ ap (λ vs. ok (record { values = vs })) (map-cut row.values clean)
