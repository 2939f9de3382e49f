-- ===== src/Record/Layout.antt =====
-- src/record/Layout.cpp
use relational_db_engine.Common.{
  ◌^◌, ◌⊎◌, inl, inr, ℕ, ◌+◌, ◌-◌, ◌*◌, ◌/◌, ◌%◌, ◌≤◌, ◌<◌, ◌≡◌, List, [], ◌∷◌, length, ◌==◌,
  if◌then◌else◌, arith,
}
use native.Mathlib.Nat.{mod-lt, div-add-mod, mul-mod_right, mul-le-mul_right}
use relational_db_engine.Record.LogicalType.{
  LogicalType, boolean, byte, int32, int64, double, string,
}
use relational_db_engine.Record.Schema.{Column, Schema}

-- The sum of two size_t, without its wrap at 2^64.
unfoldable pub align_to : ℕ → ℕ → ℕ
align_to offset alignment =
    let remainder = offset % alignment in
    if remainder == 0 then offset else offset + (alignment - remainder)

unfoldable pub null_bitmap_size : ℕ → ℕ
null_bitmap_size column_count = (column_count + 7) / 8

abbrev pub size_of : LogicalType → ℕ → ℕ
size_of boolean capacity = 1
size_of byte capacity = 1
size_of int32 capacity = 4
size_of int64 capacity = 8
size_of double capacity = 8
size_of string capacity = capacity

abbrev pub value_size : Column → ℕ
value_size column = size_of column.type column.string_capacity

abbrev pub value_alignment : LogicalType → ℕ
value_alignment boolean = 1
value_alignment byte = 1
value_alignment int32 = 4
value_alignment int64 = 8
value_alignment double = 8
value_alignment string = 1

-- The loop over the columns.
unfoldable pub end_of_values : ℕ → List Column → ℕ
end_of_values offset [] = offset
end_of_values offset (column ∷ columns) =
    end_of_values (align_to offset (value_alignment column.type) + value_size column) columns

unfoldable pub encoded_size : Schema → ℕ
encoded_size schema =
    align_to
      (end_of_values (align_to (1 + null_bitmap_size (length schema.columns)) 8) schema.columns) 8

next_multiple : (o a : ℕ) → 0 < a → (o + (a - o % a)) % a ≡ 0
next_multiple o a h =
    let e : o + (a - o % a) ≡ a * (o / a + 1) = omega (arith, div-add-mod o a, mod-lt o h) in
    rw e (mul-mod_right a (o / a + 1))

-- For a positive alignment, alignTo returns a multiple of it that is at least the offset and less
-- than the alignment above it.
pub align_to_bounds :
    (offset a : ℕ)
    → 0 < a
    → (offset ≤ align_to offset a) × (align_to offset a < offset + a) × (align_to offset a % a ≡ 0)
unfolding align_to
align_to_bounds offset a h = ground (arith, mod-lt offset h, next_multiple offset a h)

-- No multiple of a lies between q times a and the next multiple.
gap : (a q k : ℕ) → (k * a ≤ a * q) ⊎ (a * (q + 1) ≤ k * a)
gap a q k = elim (splits k q) [
  | inl l ↦ inl (omega (arith, mul-le-mul_right a l))
  | inr g ↦ inr (omega (arith, mul-le-mul_right a g))
]
  where
    splits : (m n : ℕ) → (m ≤ n) ⊎ (n + 1 ≤ m)
    splits m n = omega arith

-- For a positive alignment, and where the offset and the alignment have a sum of at most 2^64:
-- alignTo returns the least multiple of the alignment that is at least the offset, and a size_t holds
-- it, so that no sum of alignTo wraps.
pub align_to_least :
    (offset a k : ℕ)
    → 0 < a
    → offset + a ≤ 2 ^ 64
    → (offset ≤ align_to offset a)
      × (align_to offset a % a ≡ 0)
      × (align_to offset a < 2 ^ 64)
      × ((k * a < offset) ⊎ (align_to offset a ≤ k * a))
unfolding align_to
align_to_least offset a k h small =
    let (up, near, even) = align_to_bounds offset a h in
    (
      up,
      even,
      omega arith,
      ground (arith, gap a (offset / a) k, div-add-mod offset a, mod-lt offset h),
    )
