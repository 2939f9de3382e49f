-- ===== src/Record/SlottedPage/Inserted.antt =====
-- The page that insertRow leaves: its fields, its new row and the other rows.
use relational_db_engine.Common.{ℕ, ◌+◌, ◌-◌, ◌*◌, ◌≤◌, ◌<◌, ◌≡◌, ◌∙◌, ◌⊎◌, inl, inr, length, arith}
use relational_db_engine.Core.Memory.{Bytes, AreBytes}
use relational_db_engine.Core.Memory.Splice.{slice, slice-splice_ne, slice-splice_self}
use relational_db_engine.Core.Helper.LittleEndian.{uint, uint-splice_ne}
use relational_db_engine.Record.SlottedPage.Invariant.{
  IsWellFormed, count, free_start, free_end, row_offset, row_size,
}
use relational_db_engine.Record.SlottedPage.Pages.{put16_self, put16_ne, slice-put16}
use relational_db_engine.Record.SlottedPage.Insert.{
  new_offset, page1, page2, page3, page4, page5, inserted, is_page1, is_page2, is_page3, is_page4,
  is_page5, inserted-IsPage, facts,
}

module _ {p : Bytes} (w : IsWellFormed p) (xs : Bytes) (xb : AreBytes xs)
    (fits : length xs + 4 ≤ free_end p - free_start p) where
  room : (24 + count p * 4 + 4 + length xs ≤ free_end p) × (free_end p ≤ 4096)
  room = facts w xs xb fits

  pub count-inserted : count (inserted p xs) ≡ count p + 1
  unfolding inserted page5 page4
  count-inserted =
      put16_ne _ 16 _ 12 (omega arith)
      ∙ put16_ne _ 14 _ 12 (omega arith)
      ∙ put16_self (is_page3 w xs xb fits) 12 _ (omega (arith, room)) (omega arith)

  pub free_start-inserted : free_start (inserted p xs) ≡ free_start p + 4
  unfolding inserted page5
  free_start-inserted =
      put16_ne _ 16 _ 14 (omega arith)
      ∙ put16_self (is_page4 w xs xb fits) 14 _ (omega (arith, room, w.directory)) (omega arith)

  pub free_end-inserted : free_end (inserted p xs) ≡ new_offset p xs
  unfolding inserted
  free_end-inserted = put16_self (is_page5 w xs xb fits) 16 _ (omega (arith, room)) (omega arith)

  -- Past the header the writes of the header do not show.
  directory3 : (r : ℕ) → 24 ≤ r → uint 2 (inserted p xs) r ≡ uint 2 (page3 p xs) r
  unfolding inserted page5 page4
  directory3 r h =
      put16_ne _ 16 _ r (omega arith)
      ∙ put16_ne _ 14 _ r (omega arith)
      ∙ put16_ne _ 12 _ r (omega arith)

  old_entry : (r : ℕ) → 24 ≤ r → r + 2 ≤ 24 + count p * 4 → uint 2 (inserted p xs) r ≡ uint 2 p r
  unfolding page3 page2 page1
  old_entry r h l =
      directory3 r h
      ∙ put16_ne _ _ _ r (omega arith)
      ∙ put16_ne _ _ _ r (omega arith)
      ∙ uint-splice_ne 2 p (new_offset p xs) xs r (omega (arith, room))

  pub row_offset-old : (i : ℕ) → i < count p → row_offset (inserted p xs) i ≡ row_offset p i
  row_offset-old i h = old_entry (24 + i * 4) (omega arith) (omega arith)

  pub row_size-old : (i : ℕ) → i < count p → row_size (inserted p xs) i ≡ row_size p i
  row_size-old i h = old_entry (24 + i * 4 + 2) (omega arith) (omega arith)

  pub row_offset-new : row_offset (inserted p xs) (count p) ≡ new_offset p xs
  unfolding page3 page2
  row_offset-new =
      directory3 (24 + count p * 4) (omega arith)
      ∙ put16_ne _ _ _ (24 + count p * 4) (omega arith)
      ∙ put16_self (is_page1 w xs xb fits) _ _ (omega (arith, room)) (omega (arith, room))

  pub row_size-new : row_size (inserted p xs) (count p) ≡ length xs
  unfolding page3
  row_size-new =
      directory3 (24 + count p * 4 + 2) (omega arith)
      ∙ put16_self (is_page2 w xs xb fits) _ _ (omega (arith, room)) (omega (arith, room))

  -- Nor in the rows do the writes of the directory.
  rows1 : (r n : ℕ) → 24 + count p * 4 + 4 ≤ r → slice (inserted p xs) r n ≡ slice (page1 p xs) r n
  unfolding inserted page5 page4 page3 page2
  rows1 r n h =
      slice-put16 _ _ _ r n (omega arith)
      ∙ slice-put16 _ _ _ r n (omega arith)
      ∙ slice-put16 _ _ _ r n (omega arith)
      ∙ slice-put16 _ _ _ r n (omega arith)
      ∙ slice-put16 _ _ _ r n (omega arith)

  pub slice-old : (r n : ℕ) → free_end p ≤ r → slice (inserted p xs) r n ≡ slice p r n
  unfolding page1
  slice-old r n h =
      rows1 r n (omega (arith, room))
      ∙ slice-splice_ne p (new_offset p xs) xs r n (omega (arith, room))

  pub slice-new : slice (inserted p xs) (new_offset p xs) (length xs) ≡ xs
  unfolding page1
  slice-new =
      rows1 _ _ (omega (arith, room))
      ∙ slice-splice_self p (new_offset p xs) xs (omega (arith, room, w.size))

  new_rows :
      (i : ℕ)
      → i < count (inserted p xs)
      → (free_end (inserted p xs) ≤ row_offset (inserted p xs) i)
        × (row_offset (inserted p xs) i + row_size (inserted p xs) i ≤ 4096)
  new_rows i h = elim (below_or_last (count p) i (omega (arith, count-inserted))) [
    | inl old ↦
        rw (free_end-inserted, row_offset-old i old, row_size-old i old)
          (omega (arith, w.rows i old, room))
    | inr last ↦ rw (last, free_end-inserted, row_offset-new, row_size-new) (omega (arith, room))
  ]
    where
      below_or_last : (n i : ℕ) → i < n + 1 → (i < n) ⊎ (i ≡ n)
      below_or_last n i h = omega arith

  new_apart :
      (i j : ℕ)
      → i < j
      → j < count (inserted p xs)
      → row_offset (inserted p xs) j + row_size (inserted p xs) j ≤ row_offset (inserted p xs) i
  new_apart i j l h = elim (below_or_last (count p) j (omega (arith, count-inserted))) [
    | inl old ↦
        rw (row_offset-old j old, row_size-old j old, row_offset-old i (omega arith))
          (w.apart i j l old)
    | inr last ↦
        rw (last, row_offset-new, row_size-new, row_offset-old i (omega arith))
          (omega (arith, w.rows i (omega arith), room))
  ]
    where
      below_or_last : (n i : ℕ) → i < n + 1 → (i < n) ⊎ (i ≡ n)
      below_or_last n i h = omega arith

  pub inserted-IsWellFormed : IsWellFormed (inserted p xs)
  inserted-IsWellFormed = record {
    size = (inserted-IsPage w xs xb fits).size;
    bytes = (inserted-IsPage w xs xb fits).bytes;
    directory = omega (arith, free_start-inserted, count-inserted, w.directory);
    ordered = omega (arith, free_start-inserted, free_end-inserted, room, w.directory);
    in_page = omega (arith, free_end-inserted, room);
    rows = new_rows;
    apart = new_apart;
  }
