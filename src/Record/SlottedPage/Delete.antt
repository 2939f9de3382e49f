-- ===== src/Record/SlottedPage/Delete.antt =====
-- deleteRow on a well-formed page.
use relational_db_engine.Common.{
  ℕ, ◌+◌, ◌*◌, ◌≤◌, ◌<◌, ◌≡◌, ◌≢◌, ap, sym, ◌∙◌, ◌⊎◌, inl, inr, none, set, arith, le→leb, ==_ne,
  ==_iff,
}
use relational_db_engine.Core.Status.{ok, err, ◌>>=◌, invalid_argument, not_found}
use relational_db_engine.Core.Memory.{Bytes}
use relational_db_engine.Core.Memory.Splice.{slice}
use relational_db_engine.Core.Helper.LittleEndian.{uint}
use relational_db_engine.Record.SlottedPage.{delete_row}
use relational_db_engine.Record.SlottedPage.Invariant.{
  IsWellFormed, count, free_end, row_offset, row_size,
}
use relational_db_engine.Record.SlottedPage.Pages.{
  IsPage, put16, put16-IsPage, write16, put16_self, put16_ne, slice-put16,
}
use relational_db_engine.Record.SlottedPage.Insert.{as-IsPage}
use relational_db_engine.Record.SlottedPage.RowList
use relational_db_engine.Record.SlottedPage.Rows.{row_at, rows}
use relational_db_engine.Record.SlottedPage.Read.{
  read_count, slot_offset-lem, valid_slot, read_size, rows_at, rows_out, slot_cases, size_cases,
}
use relational_db_engine.Record.SlottedPage.Exchange.{exchange, row_at_ext}

-- The page after deleteRow.
pub deleted : Bytes → ℕ → Bytes
deleted p i = put16 p (24 + i * 4 + 2) 0

module _ {p : Bytes} (w : IsWellFormed p) (i : ℕ) (h : i < count p) where
  bounds : (24 + count p * 4 ≤ free_end p) × (free_end p ≤ 4096)
  bounds = omega (arith, w.directory, w.ordered, w.in_page)

  deleted_header : (r : ℕ) → r + 2 ≤ 24 → uint 2 (deleted p i) r ≡ uint 2 p r
  unfolding deleted
  deleted_header r l = put16_ne p _ 0 r (omega arith)

  deleted_offset : (j : ℕ) → row_offset (deleted p i) j ≡ row_offset p j
  unfolding deleted
  deleted_offset j = put16_ne p _ 0 (24 + j * 4) (omega arith)

  deleted_size : (j : ℕ) → j ≢ i → row_size (deleted p i) j ≡ row_size p j
  unfolding deleted
  deleted_size j ne = put16_ne p _ 0 (24 + j * 4 + 2) (omega arith)

  deleted_size_self : row_size (deleted p i) i ≡ 0
  unfolding deleted
  deleted_size_self = put16_self (as-IsPage w) _ 0 (omega arith) (omega (arith, bounds))

  deleted_size_le : (j : ℕ) → row_size (deleted p i) j ≤ row_size p j
  deleted_size_le j = elim (same_or_not j i) [
    | inl e ↦ rw (e, deleted_size_self) (omega arith)
    | inr ne ↦ rw (deleted_size j ne) (omega arith)
  ]
    where
      same_or_not : (j i : ℕ) → (j ≡ i) ⊎ (j ≢ i)
      same_or_not j i = omega arith

  deleted-IsPage : IsPage (deleted p i)
  unfolding deleted
  deleted-IsPage = put16-IsPage _ 0 (as-IsPage w)

  pub deleted-IsWellFormed : IsWellFormed (deleted p i)
  deleted-IsWellFormed = record {
    size = deleted-IsPage.size;
    bytes = deleted-IsPage.bytes;
    directory = omega (arith, deleted_header 14, deleted_header 12, w.directory);
    ordered = omega (arith, deleted_header 14, deleted_header 16, w.ordered);
    in_page = omega (arith, deleted_header 16, w.in_page);
    rows = λ j l. omega (
      arith,
      w.rows j (rw (← deleted_header 12 (omega arith)) l),
      deleted_offset j,
      deleted_size_le j,
      deleted_header 16,
    );
    apart = λ j k l m. omega (
      arith,
      w.apart j k l (rw (← deleted_header 12 (omega arith)) m),
      deleted_offset j,
      deleted_offset k,
      deleted_size_le k,
    );
  }

  deleted_row : row_at (deleted p i) i ≡ none
  unfolding row_at
  deleted_row = rw deleted_size_self

  -- Rows lie past the directory.
  slice-deleted :
      (j : ℕ)
      → j < count p
      → slice (deleted p i) (row_offset p j) (row_size p j)
        ≡ slice p (row_offset p j) (row_size p j)
  unfolding deleted
  slice-deleted j l = slice-put16 p _ 0 _ _ (omega (arith, bounds, w.rows j l))

  rows-deleted : rows (deleted p i) ≡ set (rows p) i none
  rows-deleted = sym (
      ap (set (rows p) i) (sym deleted_row)
      ∙ exchange p (deleted p i) i h (deleted_header 12 (omega arith)) λ j ne l.
        row_at_ext p (deleted p i) j (deleted_size j ne) (deleted_offset j) (slice-deleted j l))

  pub delete_dead : row_size p i ≡ 0 → delete_row p i ≡ err not_found
  unfolding delete_row
  delete_dead dead = rw (
    read_count w,
    valid_slot w i h,
    slot_offset-lem w i h,
    read_size w i h,
    (==_iff (row_size p i) 0).1 dead,
  )

  pub delete_live : row_size p i ≢ 0 → delete_row p i ≡ ok (deleted p i)
  unfolding delete_row deleted
  delete_live live =
      rw
        (
          read_count w,
          valid_slot w i h,
          slot_offset-lem w i h,
          read_size w i h,
          ==_ne (row_size p i) 0 live,
        )
        (write16 (as-IsPage w) _ 0 (omega (arith, bounds)))

  delete_valid : (delete_row p i >>= λ q. ok (rows q)) ≡ RowList.delete (rows p) i
  unfolding row_at
  delete_valid = elim (size_cases (row_size p i)) [
    | inl dead ↦ rw (rows_at w i h, delete_dead dead, (==_iff (row_size p i) 0).1 dead)
    | inr live ↦
        rw (rows_at w i h, delete_live live, ==_ne (row_size p i) 0 live) (ap ok rows-deleted)
  ]

pub delete_invalid :
    {p : Bytes} → IsWellFormed p → (i : ℕ) → count p ≤ i → delete_row p i ≡ err invalid_argument
unfolding delete_row
delete_invalid {p} w i h = rw (read_count w, le→leb (count p) i h)

-- deleteRow on a well-formed page leaves the gap in the list of rows, or fails as it does there.
pub delete_row-rows :
    (p : Bytes) (i : ℕ)
    → IsWellFormed p
    → (delete_row p i >>= λ q. ok (rows q)) ≡ RowList.delete (rows p) i
delete_row-rows p i w = elim (slot_cases (count p) i) [
  | inl h ↦ delete_valid w i h
  | inr h ↦ rw (rows_out w i h, delete_invalid w i h)
]
