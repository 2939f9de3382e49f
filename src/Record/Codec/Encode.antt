-- ===== src/Record/Codec/Encode.antt =====
-- What encode returns.
use native.Mathlib.Nat.{zero-div}
use relational_db_engine.Common.{
  ℕ, ◌+◌, ◌/◌, ◌%◌, ◌≤◌, ◌<◌, ◌≡◌, ◌≢◌, ap, sym, subst, ◌∙◌, ◌⊎◌, inl, inr, List, length, get_or,
  set, replicate, length-replicate, get_or-replicate, length-set, get_or-set_self, get_or-set_ne,
  arith, ==_ne, ==_iff,
}
use relational_db_engine.Common.Bits.{bit_of}
use relational_db_engine.Core.Status.{ok, err, invalid_argument}
use relational_db_engine.Core.Memory.{Bytes, AreBytes}
use relational_db_engine.Core.Memory.Splice.{poke-set, set-AreBytes, AreBytes-replicate}
use relational_db_engine.Record.Schema.{Schema}
use relational_db_engine.Record.Value.{Value, Row}
use relational_db_engine.Record.Layout.{
  align_to, align_to_bounds, null_bitmap_size, end_of_values, encoded_size,
}
use relational_db_engine.Record.Codec.{encode, check_values, mark_nulls, write_values}
use relational_db_engine.Record.Codec.Values.{
  AllFit, AllRepresentable, AllStored, Wrote, write_values-Wrote, offset-le-end,
}
use relational_db_engine.Record.Codec.Bitmap.{bit_at, flag, Marked, mark_nulls-Marked}
use relational_db_engine.Record.Codec.Checks.{check_values-AllFit, AllFit-length}

-- Where the values start.
abbrev pub values_start : ℕ → ℕ
values_start n = align_to (1 + null_bitmap_size n) 8

pub record IsEncoded (schema : Schema) (vals : List Value) (q : Bytes) : Type 0 where
  pub size : length q ≡ encoded_size schema
  pub bytes : AreBytes q
  pub first : get_or q 0 0 ≡ length vals
  pub flags : (j : ℕ) → j / 8 < null_bitmap_size (length vals) → bit_at q j ≡ flag vals j
  pub stored : AllStored q (values_start (length vals)) schema.columns vals

pub size_bounds :
    (schema : Schema)
    → (end_of_values (values_start (length schema.columns)) schema.columns ≤ encoded_size schema)
      × (1 + null_bitmap_size (length schema.columns) ≤ values_start (length schema.columns))
      × (values_start (length schema.columns) ≤ encoded_size schema)
unfolding encoded_size
size_bounds schema =
    let n = length schema.columns in
    let end = end_of_values (values_start n) schema.columns in
    omega (
      arith,
      align_to_bounds end 8 (omega arith),
      align_to_bounds (1 + null_bitmap_size n) 8 (omega arith),
      offset-le-end (values_start n) schema.columns,
    )

module _ (schema : Schema) (vals : List Value) (small : length vals ≤ 255)
    (fits : AllFit schema.columns vals) (rep : AllRepresentable vals) where
  same : length vals ≡ length schema.columns
  same = AllFit-length schema.columns vals fits

  zeros : Bytes
  zeros = replicate (encoded_size schema) 0

  counted : Bytes
  counted = set zeros 0 (length vals)

  counted-size : length counted ≡ encoded_size schema
  unfolding counted zeros
  counted-size =
      length-set (replicate (encoded_size schema) 0) 0 (length vals) ∙ length-replicate _ _

  counted-bytes : AreBytes counted
  unfolding counted zeros
  counted-bytes = set-AreBytes _ 0 _ (AreBytes-replicate (encoded_size schema)) (omega arith)

  counted-rest : (k : ℕ) → k ≢ 0 → get_or counted k 0 ≡ 0
  unfolding counted zeros
  counted-rest k ne =
      get_or-set_ne (replicate (encoded_size schema) 0) 0 k (length vals) 0 (λ e. ne (sym e))
      ∙ get_or-replicate {A = ℕ} (encoded_size schema) k 0

  counted-first : get_or counted 0 0 ≡ length vals
  unfolding counted zeros
  counted-first =
      get_or-set_self (replicate (encoded_size schema) 0) 0 (length vals) 0
        (omega (arith, length-replicate {A = ℕ} (encoded_size schema) 0, size_bounds schema))

  counted-clear : (j : ℕ) → 0 ≤ j → bit_at counted j ≡ 0
  unfolding bit_at bit_of
  counted-clear j l = rw (counted-rest (1 + j / 8) (omega arith)) (zero_bit (j % 8))
    where
      zero_bit : (l : ℕ) → bit_of 0 l ≡ 0
      zero_bit l = rw zero-div

  marking : (q : Bytes) × (mark_nulls counted 1 0 vals ≡ ok q) × Marked counted q 0 vals
  unfolding null_bitmap_size
  marking =
      mark_nulls-Marked counted 0 vals counted-bytes
        (omega (arith, counted-size, size_bounds schema, same)) counted-clear

  behind_bitmap : (k : ℕ) → values_start (length vals) ≤ k → get_or marking.0 k 0 ≡ 0
  unfolding null_bitmap_size
  behind_bitmap k h =
      marking.2.behind k (omega (arith, align_to_bounds (1 + null_bitmap_size (length vals)) 8))
      ∙ counted-rest k (omega (arith, align_to_bounds (1 + null_bitmap_size (length vals)) 8))

  writing :
      (q : Bytes) × (write_values marking.0 (values_start (length vals)) schema.columns vals ≡ ok q)
      × Wrote marking.0 q (values_start (length vals)) schema.columns vals
  writing =
      write_values-Wrote marking.0 (values_start (length vals)) schema.columns vals marking.2.bytes
        fits rep (rw (marking.2.size, counted-size, same) (size_bounds schema).0) behind_bitmap

  encoded-flags :
      (j : ℕ) → j / 8 < null_bitmap_size (length vals) → bit_at writing.0 j ≡ flag vals j
  unfolding bit_at
  encoded-flags j h =
      let at : 0 + j ≡ j = omega arith in
      ap (λ b. bit_of b (j % 8))
        (writing.2.before (1 + j / 8)
          (omega (arith, align_to_bounds (1 + null_bitmap_size (length vals)) 8)))
      ∙ subst (λ k. bit_at marking.0 k ≡ flag vals j) at (marking.2.flags j)

  pub encoded : Bytes
  encoded = writing.0

  pub encoded-IsEncoded : IsEncoded schema vals encoded
  unfolding encoded
  encoded-IsEncoded = record {
    size = writing.2.size ∙ marking.2.size ∙ counted-size;
    bytes = writing.2.bytes;
    first =
        writing.2.before 0 (omega (arith, align_to_bounds (1 + null_bitmap_size (length vals)) 8))
        ∙ marking.2.first
        ∙ counted-first;
    flags = encoded-flags;
    stored = writing.2.stored;
  }

  checked : check_values schema.columns vals ≡ ok tt
  checked = elim (check_values-AllFit schema.columns vals same) [
    | inl (f, e) ↦ e
    | inr (bad, e) ↦ absurd (bad fits)
  ]

  pub encode-lem : encode schema (record { values = vals }) ≡ ok encoded
  unfolding encode encoded counted zeros
  encode-lem =
      let small_count : length vals % 256 ≡ length vals = omega arith in
      rw (
        (==_iff (length vals) (length schema.columns)).1 same,
        checked,
        small_count,
        poke-set (replicate (encoded_size schema) 0) 0 (length vals)
            (omega (arith, length-replicate {A = ℕ} (encoded_size schema) 0, size_bounds schema)),
        marking.1,
        writing.1,
      )

-- encode of at most 255 representable values: if each fits its column, the result is a row of
-- encodedSize bytes; if not, InvalidArgument. No access leaves the buffer.
pub encode-total :
    (schema : Schema) (row : Row)
    → length row.values ≤ 255
    → AllRepresentable row.values
    → (AllFit schema.columns row.values
        × ((q : Bytes) × (encode schema row ≡ ok q) × IsEncoded schema row.values q))
      ⊎ ((¬ AllFit schema.columns row.values) × (encode schema row ≡ err invalid_argument))
encode-total schema row small rep = elim (count_cases (length row.values) (length schema.columns)) [
  | inr ne ↦ inr (
    λ f. ne (AllFit-length schema.columns row.values f),
    unfold encode in rw (==_ne (length row.values) (length schema.columns) ne),
  )
  | inl e ↦ elim (check_values-AllFit schema.columns row.values e) [
    | inr (bad, r) ↦
        inr (bad, unfold encode in rw ((==_iff (length row.values) (length schema.columns)).1 e, r))
    | inl (fits, r) ↦ inl (
      fits,
      (
        encoded schema row.values small fits rep,
        encode-lem schema row.values small fits rep,
        encoded-IsEncoded schema row.values small fits rep,
      ),
    )
  ]
]
  where
    count_cases : (a b : ℕ) → (a ≡ b) ⊎ (a ≢ b)
    count_cases a b = omega arith
