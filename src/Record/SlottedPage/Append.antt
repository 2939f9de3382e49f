-- ===== src/Record/SlottedPage/Append.antt =====
-- insertRow on a well-formed page, as an operation on the list of rows.
use relational_db_engine.Common.{
  ℕ, suc, ◌+◌, ◌-◌, ◌≤◌, ◌<◌, ◌≡◌, ap, sym, ◌∙◌, ◌⊎◌, inl, inr, false, List, [], ◌∷◌, ◌++◌, Option,
  length, arith, leb, le→leb, le→ltb,
}
use relational_db_engine.Common.Tabulate.{tabulate, tabulate_ext, length-tabulate, tabulate-suc}
use relational_db_engine.Core.Status.{ok, err, ◌>>=◌, invalid_argument}
use relational_db_engine.Core.Memory.{Bytes, AreBytes}
use relational_db_engine.Record.SlottedPage.{insert_row}
use relational_db_engine.Record.SlottedPage.Invariant.{
  IsWellFormed, count, free_start, free_end, row_offset, row_size,
}
use relational_db_engine.Record.SlottedPage.Pages.{read16}
use relational_db_engine.Record.SlottedPage.Insert.{as-IsPage, inserted, insert_row-lem}
use relational_db_engine.Record.SlottedPage.Inserted.{
  count-inserted, row_offset-old, row_size-old, row_offset-new, row_size-new, slice-old, slice-new,
}
use relational_db_engine.Record.SlottedPage.RowList
use relational_db_engine.Record.SlottedPage.Rows.{row_at, rows}
use relational_db_engine.Record.SlottedPage.Exchange.{row_at_ext}

module _ {p : Bytes} (w : IsWellFormed p) (xs : Bytes) (xb : AreBytes xs)
    (fits : length xs + 4 ≤ free_end p - free_start p) where
  old_row : (j : ℕ) → j < count p → row_at (inserted p xs) j ≡ row_at p j
  old_row j l = sym (
      row_at_ext p (inserted p xs) j (row_size-old w xs xb fits j l)
        (row_offset-old w xs xb fits j l)
        (slice-old w xs xb fits (row_offset p j) (row_size p j) (w.rows j l).0))

  new_row : row_at (inserted p xs) (count p) ≡ RowList.entry xs
  unfolding row_at
  new_row = rw (row_size-new w xs xb fits, row_offset-new w xs xb fits, slice-new w xs xb fits)

  pub rows-inserted : rows (inserted p xs) ≡ rows p ++ (RowList.entry xs ∷ [])
  unfolding rows
  rows-inserted =
      let next : count p + 1 ≡ suc (count p) = omega arith in
      let last : 0 + count p ≡ count p = omega arith in
      ap (λ n. tabulate n 0 (row_at (inserted p xs))) (count-inserted w xs xb fits ∙ next)
      ∙ tabulate-suc (count p) 0 (row_at (inserted p xs))
      ∙ ap (λ j. tabulate (count p) 0 (row_at (inserted p xs)) ++ (row_at (inserted p xs) j ∷ []))
          last
      ∙ ap (λ r. tabulate (count p) 0 (row_at (inserted p xs)) ++ (r ∷ [])) new_row
      ∙ ap (λ rs. rs ++ (RowList.entry xs ∷ []))
          (tabulate_ext (count p) 0 (row_at (inserted p xs)) (row_at p)
            (λ k l m. old_row k (omega arith)))

module _ {p : Bytes} (w : IsWellFormed p) (xs : Bytes) where
  pub insert_refused :
      free_end p - free_start p < length xs + 4 → insert_row p xs ≡ err invalid_argument
  unfolding insert_row
  insert_refused full = rw (
    read16 (as-IsPage w) 14 (omega arith),
    read16 (as-IsPage w) 16 (omega arith),
    le→ltb (free_end p) (free_start p) w.ordered,
    not_leb (length xs + 4) (free_end p - free_start p) full,
  )
    where
      not_leb : (a b : ℕ) → b < a → leb a b ≡ false
      not_leb a b h = ground arith

pub length-rows : (p : Bytes) → length (rows p) ≡ count p
unfolding rows
length-rows p = length-tabulate (count p) 0 (row_at p)

pub space_cases : (need free : ℕ) → (need ≤ free) ⊎ (free < need)
space_cases need free = omega arith

abbrev pub viewed : ℕ × Bytes → ℕ × List (Option Bytes)
viewed (i, p) = (i, rows p)

-- insertRow on a well-formed page: if the free space takes the payload and a slot entry, the payload
-- joins the list of rows at its end, an empty one as a deleted row, and its index is returned; if
-- not, the result is InvalidArgument.
pub insert_row-rows :
    (p xs : Bytes)
    → IsWellFormed p
    → AreBytes xs
    → (insert_row p xs >>= λ r. ok (viewed r))
      ≡ RowList.insert (rows p) (free_end p - free_start p) xs
insert_row-rows p xs w xb = elim (space_cases (length xs + 4) (free_end p - free_start p)) [
  | inl fits ↦
      rw (insert_row-lem w xs xb fits, le→leb _ _ fits, length-rows p)
        (ap (λ rs. ok (count p, rs)) (rows-inserted w xs xb fits))
  | inr full ↦ rw (insert_refused w xs full, not_leb _ _ full)
]
  where
    not_leb : (a b : ℕ) → b < a → leb a b ≡ false
    not_leb a b h = ground arith
