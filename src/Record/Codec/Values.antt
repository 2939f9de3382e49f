-- ===== src/Record/Codec/Values.antt =====
-- The loop of encode that writes the values.
use relational_db_engine.Common.{
  ℕ, ◌+◌, ◌≤◌, ◌<◌, ◌≡◌, refl, ap, sym, ◌∙◌, List, [], ◌∷◌, true, false, length, get_or, arith,
}
use relational_db_engine.Core.Status.{ok}
use relational_db_engine.Core.Memory.{Bytes, AreBytes}
use relational_db_engine.Core.Memory.Splice.{
  splice, length-splice, AreBytes-splice, get_or-splice_before, get_or-splice_after,
}
use relational_db_engine.Record.LogicalType.{LogicalType}
use relational_db_engine.Record.Schema.{Column}
use relational_db_engine.Record.Value.{Value, type, is_null}
use relational_db_engine.Record.Layout.{
  align_to, value_size, value_alignment, size_of, end_of_values, align_to_bounds,
}
use relational_db_engine.Record.Codec.{write_value, write_values, too_long}
use relational_db_engine.Record.Codec.Stored.{IsRepresentable, Stored, Stored-agree, payload}
use relational_db_engine.Record.Codec.Written.{
  length-payload, AreBytes-payload, write_value-payload, Stored-written,
}

-- The value passes the checks for its column.
pub record Fits (col : Column) (val : Value) : Type 0 where
  pub typed : type val ≡ col.type
  pub nulls : is_null val ≡ true → col.nullable ≡ true
  pub short : too_long val col.string_capacity ≡ false

abbrev pub AllFit : List Column → List Value → Type 0
AllFit [] [] = Unit {0}
AllFit (col ∷ cols) (val ∷ vals) = Fits col val × AllFit cols vals
AllFit _ _ = ⊥

abbrev pub AllRepresentable : List Value → Type 0
AllRepresentable [] = Unit {0}
AllRepresentable (val ∷ vals) = IsRepresentable val × AllRepresentable vals

abbrev pub at_field : ℕ → Column → ℕ
at_field offset col = align_to offset (value_alignment col.type)

-- Every field holds its value.
abbrev pub AllStored : Bytes → ℕ → List Column → List Value → Type 0
AllStored p offset [] [] = Unit {0}
AllStored p offset (col ∷ cols) (val ∷ vals) =
    Stored p (at_field offset col) col.string_capacity val
    × AllStored p (at_field offset col + value_size col) cols vals
AllStored p offset _ _ = ⊥

alignment_pos : (t : LogicalType) → 0 < value_alignment t
alignment_pos t = ground arith

pub offset-le-field : (offset : ℕ) (col : Column) → offset ≤ at_field offset col
offset-le-field offset col =
    (align_to_bounds offset (value_alignment col.type) (alignment_pos col.type)).0

pub offset-le-end : (offset : ℕ) (cols : List Column) → offset ≤ end_of_values offset cols
unfolding end_of_values
offset-le-end offset [] = omega arith
offset-le-end offset (col ∷ cols) =
    omega
      (arith, offset-le-field offset col, offset-le-end (at_field offset col + value_size col) cols)

-- What the loop leaves in the buffer.
pub record Wrote (p q : Bytes) (offset : ℕ) (cols : List Column) (vals : List Value) : Type 0 where
  pub size : length q ≡ length p
  pub bytes : AreBytes q
  pub before : (i : ℕ) → i < offset → get_or q i 0 ≡ get_or p i 0
  pub stored : AllStored q offset cols vals

module _ (p : Bytes) (offset : ℕ) (col : Column) (val : Value) (fit : Fits col val)
    (r : IsRepresentable val) where
  field_size : size_of (type val) col.string_capacity ≡ value_size col
  field_size = ap (λ t. size_of t col.string_capacity) fit.typed

  one_field :
      at_field offset col + value_size col ≤ length p
      → write_value p (at_field offset col) val ≡ ok (splice p (at_field offset col) (payload val))
  one_field h =
      write_value-payload p (at_field offset col) col.string_capacity val fit.short r
        (omega (arith, field_size))

  -- Zeros remain behind the field.
  zeros_behind :
      ((i : ℕ) → offset ≤ i → get_or p i 0 ≡ 0)
      → (i : ℕ) → at_field offset col + value_size col ≤ i
      → get_or (splice p (at_field offset col) (payload val)) i 0 ≡ 0
  zeros_behind z i h =
      get_or-splice_after p (at_field offset col) (payload val) i
        (omega (arith, field_size, length-payload col.string_capacity val fit.short r))
      ∙ z i (omega (arith, offset-le-field offset col))

  add_field :
      (q : Bytes) (cols : List Column) (vals : List Value)
      → at_field offset col + value_size col ≤ length p
      → ((i : ℕ) → offset ≤ i → get_or p i 0 ≡ 0)
      → Wrote
          (splice p (at_field offset col) (payload val))
          q
          (at_field offset col + value_size col)
          cols
          vals
      → Wrote p q offset (col ∷ cols) (val ∷ vals)
  add_field q cols vals h z rest = record {
    size = rest.size ∙ length-splice p (at_field offset col) (payload val);
    bytes = rest.bytes;
    before = λ i l.
        rest.before i (omega (arith, offset-le-field offset col))
        ∙ get_or-splice_before p (at_field offset col) (payload val) i
            (omega (arith, offset-le-field offset col));
    stored = (
      Stored-agree _ q (at_field offset col) col.string_capacity val fit.short
          (λ j l. sym (rest.before (at_field offset col + j) (omega (arith, field_size))))
          (Stored-written p (at_field offset col) col.string_capacity val fit.short r
            (omega (arith, field_size)) (λ i l. z i (omega (arith, offset-le-field offset col)))),
      rest.stored,
    );
  }

-- Into zeroed memory that is long enough the loop writes every value into its field, and nothing
-- before the first.
pub write_values-Wrote :
    (p : Bytes) (offset : ℕ) (cols : List Column) (vals : List Value)
    → AreBytes p
    → AllFit cols vals
    → AllRepresentable vals
    → end_of_values offset cols ≤ length p
    → ((i : ℕ) → offset ≤ i → get_or p i 0 ≡ 0)
    → (q : Bytes) × (write_values p offset cols vals ≡ ok q) × Wrote p q offset cols vals
unfolding write_values end_of_values
write_values-Wrote p offset [] [] bs f r h z =
    (p, refl, record { size = refl; bytes = bs; before = λ i l. refl; stored = tt })
write_values-Wrote p offset [] (val ∷ vals) bs f r h z = absurd f
write_values-Wrote p offset (col ∷ cols) [] bs f r h z = absurd f
write_values-Wrote p offset (col ∷ cols) (val ∷ vals) bs (fit, fits) (r, rs) h z =
    let at = at_field offset col in
    let room : at + value_size col ≤ length p =
      omega (arith, offset-le-end (at + value_size col) cols) in
    let rest =
      write_values-Wrote (splice p at (payload val)) (at + value_size col) cols vals
        (AreBytes-splice p at (payload val) bs (AreBytes-payload val r)) fits rs
        (rw (length-splice p at (payload val)) h) (zeros_behind p offset col val fit r z) in
    (
      rest.0,
      rw (one_field p offset col val fit r room) rest.1,
      add_field p offset col val fit r rest.0 cols vals room z rest.2,
    )
