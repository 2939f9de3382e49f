-- ===== src/Record/SlottedPage/Read.antt =====
-- readRow on a well-formed page, and what the other operations read first.
use relational_db_engine.Common.{
  ℕ, ◌+◌, ◌*◌, ◌≤◌, ◌<◌, ◌≡◌, ◌≢◌, ap, ◌∙◌, ◌⊎◌, inl, inr, false, arith, leb, le→leb, ◌==◌, ==_ne,
  ==_iff, Bool-cases, get_elem?, some, none,
}
use relational_db_engine.Common.Tabulate.{get_elem?-tabulate, get_elem?-tabulate_out}
use relational_db_engine.Core.Status.{ok, err, not_found}
use relational_db_engine.Core.Memory.{Bytes}
use relational_db_engine.Core.Memory.Splice.{slice, copy_out-slice}
use relational_db_engine.Core.Helper.{read_uint16}
use relational_db_engine.Record.SlottedPage.{read_row, slot_offset}
use relational_db_engine.Record.SlottedPage.Invariant.{IsWellFormed, count, row_offset, row_size}
use relational_db_engine.Record.SlottedPage.Pages.{read16}
use relational_db_engine.Record.SlottedPage.Insert.{as-IsPage}
use relational_db_engine.Record.SlottedPage.Rows.{row_at, rows}
use relational_db_engine.Record.SlottedPage.RowList

module _ {p : Bytes} (w : IsWellFormed p) where
  pub read_count : read_uint16 p 12 ≡ ok (count p)
  read_count = read16 (as-IsPage w) 12 (omega arith)

  module _ (i : ℕ) (h : i < count p) where
    pub slot_offset-lem : slot_offset i ≡ 24 + i * 4
    slot_offset-lem = omega (arith, w.directory, w.ordered, w.in_page)

    pub valid_slot : leb (count p) i ≡ false
    valid_slot = ground arith

    pub read_offset : read_uint16 p (24 + i * 4) ≡ ok (row_offset p i)
    read_offset = read16 (as-IsPage w) _ (omega (arith, w.directory, w.ordered, w.in_page))

    pub read_size : read_uint16 p (24 + i * 4 + 2) ≡ ok (row_size p i)
    read_size = read16 (as-IsPage w) _ (omega (arith, w.directory, w.ordered, w.in_page))

    read_live : row_size p i ≢ 0 → read_row p i ≡ ok (slice p (row_offset p i) (row_size p i))
    unfolding read_row
    read_live live =
        rw (read_count, valid_slot, slot_offset-lem, read_offset, read_size, ==_ne _ _ live)
          (copy_out-slice p _ _ (omega (arith, w.rows i h, w.size)))

    read_dead : row_size p i ≡ 0 → read_row p i ≡ err not_found
    unfolding read_row
    read_dead dead =
        rw (read_count, valid_slot, slot_offset-lem, read_offset, read_size, (==_iff _ 0).1 dead)

    pub rows_at : get_elem? (rows p) i ≡ some (row_at p i)
    unfolding rows
    rows_at =
        let e : 0 + i ≡ i = omega arith in
        get_elem?-tabulate (count p) 0 (row_at p) i h ∙ ap (λ j. some (row_at p j)) e

    read_valid : read_row p i ≡ RowList.read (rows p) i
    read_valid = rw rows_at (
        unfold row_at in
        elim (Bool-cases (row_size p i == 0)) [
          | inl dead ↦ rw dead (read_dead ((==_iff _ 0).0 dead))
          | inr live ↦ rw live (read_live (λ e. cc ((==_iff (row_size p i) 0).1 e)))
        ])

  pub rows_out : (i : ℕ) → count p ≤ i → get_elem? (rows p) i ≡ none
  unfolding rows
  rows_out i h = get_elem?-tabulate_out (count p) 0 (row_at p) i h

  read_invalid : (i : ℕ) → count p ≤ i → read_row p i ≡ RowList.read (rows p) i
  unfolding read_row
  read_invalid i h = rw (rows_out i h, read_count, le→leb (count p) i h)

pub slot_cases : (n i : ℕ) → (i < n) ⊎ (n ≤ i)
slot_cases n i = omega arith

-- readRow on a well-formed page is the read of the list of rows, errors included.
pub read_row-rows : (p : Bytes) (i : ℕ) → IsWellFormed p → read_row p i ≡ RowList.read (rows p) i
read_row-rows p i w = elim (slot_cases (count p) i) [
  | inl h ↦ read_valid w i h
  | inr h ↦ read_invalid w i h
]

pub size_cases : (n : ℕ) → (n ≡ 0) ⊎ (n ≢ 0)
size_cases n = omega arith
