-- ===== src/Record/SlottedPage/Update.antt =====
-- updateRow on a well-formed page.
use relational_db_engine.Common.{
  ℕ, ◌+◌, ◌*◌, ◌≤◌, ◌<◌, ◌≡◌, ◌≢◌, refl, ap, sym, ◌∙◌, ◌⊎◌, inl, inr, some, length, set, arith,
  le→leb, le→ltb, ==_ne, ==_iff,
}
use relational_db_engine.Core.Status.{ok, err, ◌>>=◌, invalid_argument, not_found}
use relational_db_engine.Core.Memory.{Bytes, AreBytes}
use relational_db_engine.Core.Memory.Splice.{
  slice, splice, slice-splice_ne, slice-splice_self, length-slice,
}
use relational_db_engine.Core.Helper.LittleEndian.{uint, uint-splice_ne}
use relational_db_engine.Record.SlottedPage.{update_row}
use relational_db_engine.Record.SlottedPage.Invariant.{
  IsWellFormed, count, free_end, row_offset, row_size,
}
use relational_db_engine.Record.SlottedPage.Pages.{IsPage, splice-IsPage, read16, copied}
use relational_db_engine.Record.SlottedPage.Insert.{as-IsPage}
use relational_db_engine.Record.SlottedPage.RowList
use relational_db_engine.Record.SlottedPage.Rows.{row_at, rows}
use relational_db_engine.Record.SlottedPage.Read.{
  read_count, slot_offset-lem, valid_slot, read_offset, read_size, rows_at, rows_out, slot_cases,
  size_cases,
}
use relational_db_engine.Record.SlottedPage.Exchange.{exchange, row_at_ext}

-- The page after updateRow.
pub updated : Bytes → ℕ → Bytes → Bytes
updated p i xs = splice p (row_offset p i) xs

module _ {p : Bytes} (w : IsWellFormed p) (i : ℕ) (h : i < count p) (xs : Bytes) (xb : AreBytes xs)
    (fits : length xs ≡ row_size p i) where
  bounds : (24 + count p * 4 ≤ row_offset p i) × (row_offset p i + length xs ≤ 4096)
  bounds = omega (arith, w.directory, w.ordered, w.in_page, w.rows i h)

  updated-IsPage : IsPage (updated p i xs)
  unfolding updated
  updated-IsPage = splice-IsPage _ xs (as-IsPage w) xb

  -- The header and the directory stay.
  updated_entry : (r : ℕ) → r + 2 ≤ 24 + count p * 4 → uint 2 (updated p i xs) r ≡ uint 2 p r
  unfolding updated
  updated_entry r l = uint-splice_ne 2 p _ xs r (omega (arith, bounds))

  count-updated : count (updated p i xs) ≡ count p
  count-updated = updated_entry 12 (omega arith)

  updated_offset : (j : ℕ) → j < count p → row_offset (updated p i xs) j ≡ row_offset p j
  updated_offset j l = updated_entry (24 + j * 4) (omega arith)

  updated_size : (j : ℕ) → j < count p → row_size (updated p i xs) j ≡ row_size p j
  updated_size j l = updated_entry (24 + j * 4 + 2) (omega arith)

  pub updated-IsWellFormed : IsWellFormed (updated p i xs)
  updated-IsWellFormed = record {
    size = updated-IsPage.size;
    bytes = updated-IsPage.bytes;
    directory = omega (arith, updated_entry 14, count-updated, w.directory);
    ordered = omega (arith, updated_entry 14, updated_entry 16, w.ordered);
    in_page = omega (arith, updated_entry 16, w.in_page);
    rows = λ j l.
        let m : j < count p = rw (← count-updated) l in
        omega (arith, w.rows j m, updated_offset j m, updated_size j m, updated_entry 16);
    apart = λ j k l n.
        let m : k < count p = rw (← count-updated) n in
        omega (
          arith,
          w.apart j k l m,
          updated_offset j (omega arith),
          updated_offset k m,
          updated_size k m,
        );
  }

  slice-updated_self : slice (updated p i xs) (row_offset p i) (row_size p i) ≡ xs
  unfolding updated
  slice-updated_self =
      rw (← fits) (slice-splice_self p (row_offset p i) xs (omega (arith, bounds, w.size)))

  updated_row : row_size p i ≢ 0 → row_at (updated p i xs) i ≡ some xs
  unfolding row_at
  updated_row live =
      rw (updated_size i h, updated_offset i h, ==_ne (row_size p i) 0 live, slice-updated_self)

  -- The other rows lie wholly before or behind.
  slice-updated :
      (j : ℕ)
      → j ≢ i
      → j < count p
      → slice (updated p i xs) (row_offset p j) (row_size p j)
        ≡ slice p (row_offset p j) (row_size p j)
  unfolding updated
  slice-updated j ne l = elim (before_or_after j i ne) [
    | inl first ↦ slice-splice_ne p _ xs _ _ (inr (omega (arith, w.apart j i first h)))
    | inr later ↦ slice-splice_ne p _ xs _ _ (inl (omega (arith, w.apart i j later l)))
  ]
    where
      before_or_after : (j i : ℕ) → j ≢ i → (j < i) ⊎ (i < j)
      before_or_after j i ne = omega arith

  rows-updated : row_size p i ≢ 0 → rows (updated p i xs) ≡ set (rows p) i (some xs)
  rows-updated live = sym (
      ap (set (rows p) i) (sym (updated_row live))
      ∙ exchange p (updated p i xs) i h count-updated λ j ne l.
        row_at_ext p (updated p i xs) j (updated_size j l) (updated_offset j l)
          (slice-updated j ne l))

  pub update_live : row_size p i ≢ 0 → update_row p i xs ≡ ok (updated p i xs)
  unfolding update_row updated
  update_live live =
      rw
        (
          read_count w,
          valid_slot w i h,
          slot_offset-lem w i h,
          read_offset w i h,
          read_size w i h,
          ==_ne (row_size p i) 0 live,
          read16 (as-IsPage w) 16 (omega arith),
          le→ltb 4096 (row_offset p i + row_size p i) (w.rows i h).1,
          le→ltb (row_offset p i) (free_end p) (w.rows i h).0,
          fits,
          (==_iff (row_size p i) (row_size p i)).1 refl,
        )
        (copied (as-IsPage w) _ xs (omega (arith, bounds)))

  pub update_fits :
      row_size p i ≢ 0 → (update_row p i xs >>= λ q. ok (rows q)) ≡ ok (set (rows p) i (some xs))
  update_fits live = rw (update_live live) (ap ok (rows-updated live))

module _ {p : Bytes} (w : IsWellFormed p) (i : ℕ) (h : i < count p) (xs : Bytes) where
  pub update_dead : row_size p i ≡ 0 → update_row p i xs ≡ err not_found
  unfolding update_row
  update_dead dead = rw (
    read_count w,
    valid_slot w i h,
    slot_offset-lem w i h,
    read_offset w i h,
    read_size w i h,
    (==_iff (row_size p i) 0).1 dead,
  )

  pub update_resized :
      row_size p i ≢ 0 → length xs ≢ row_size p i → update_row p i xs ≡ err invalid_argument
  unfolding update_row
  update_resized live other = rw (
    read_count w,
    valid_slot w i h,
    slot_offset-lem w i h,
    read_offset w i h,
    read_size w i h,
    ==_ne (row_size p i) 0 live,
    read16 (as-IsPage w) 16 (omega arith),
    le→ltb 4096 (row_offset p i + row_size p i) (w.rows i h).1,
    le→ltb (row_offset p i) (free_end p) (w.rows i h).0,
    ==_ne (length xs) (row_size p i) other,
  )

  update_valid :
      AreBytes xs → (update_row p i xs >>= λ q. ok (rows q)) ≡ RowList.update (rows p) i xs
  unfolding row_at
  update_valid xb = elim (size_cases (row_size p i)) [
    | inl dead ↦ rw (rows_at w i h, update_dead dead, (==_iff (row_size p i) 0).1 dead)
    | inr live ↦
        rw
          (
            rows_at w i h,
            ==_ne (row_size p i) 0 live,
            length-slice p (row_offset p i) (row_size p i),
          )
          (elim (same_size (length xs) (row_size p i)) [
            | inl e ↦ rw (update_fits w i h xs xb e live, (==_iff (length xs) (row_size p i)).1 e)
            | inr ne ↦ rw (update_resized live ne, ==_ne (length xs) (row_size p i) ne)
          ])
  ]
    where
      same_size : (m n : ℕ) → (m ≡ n) ⊎ (m ≢ n)
      same_size m n = omega arith

pub update_invalid :
    {p : Bytes}
    → IsWellFormed p
    → (i : ℕ) (xs : Bytes) → count p ≤ i
    → update_row p i xs ≡ err invalid_argument
unfolding update_row
update_invalid {p} w i xs h = rw (read_count w, le→leb (count p) i h)

-- updateRow on a well-formed page overwrites the row in the list of rows, or fails as it does there.
pub update_row-rows :
    (p : Bytes) (i : ℕ) (xs : Bytes)
    → IsWellFormed p
    → AreBytes xs
    → (update_row p i xs >>= λ q. ok (rows q)) ≡ RowList.update (rows p) i xs
update_row-rows p i xs w xb = elim (slot_cases (count p) i) [
  | inl h ↦ update_valid w i h xs xb
  | inr h ↦ rw (rows_out w i h, update_invalid w i xs h)
]
