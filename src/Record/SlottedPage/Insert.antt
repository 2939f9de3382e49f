-- ===== src/Record/SlottedPage/Insert.antt =====
-- insertRow on a well-formed page.
use relational_db_engine.Common.{
  ℕ, ◌+◌, ◌-◌, ◌*◌, ◌%◌, ◌≤◌, ◌≡◌, ◌∙◌, length, arith, leb, le→ltb, le→leb,
}
use relational_db_engine.Core.Status.{ok}
use relational_db_engine.Core.Memory.{Bytes, AreBytes, copy_in}
use relational_db_engine.Core.Memory.Splice.{splice}
use relational_db_engine.Core.Helper.{write_uint16}
use relational_db_engine.Core.Helper.LittleEndian.{uint, uint-splice_ne}
use relational_db_engine.Record.SlottedPage.{insert_row, has_space_for, slot_offset, sub_u16}
use relational_db_engine.Record.SlottedPage.Invariant.{IsWellFormed, count, free_start, free_end}
use relational_db_engine.Record.SlottedPage.Pages.{
  IsPage, put16, splice-IsPage, put16-IsPage, read16, write16, copied, put16_ne,
}

pub as-IsPage : {p : Bytes} → IsWellFormed p → IsPage p
as-IsPage w = record { size = w.size; bytes = w.bytes }

pub has_space_for-lem :
    {p : Bytes} (n : ℕ)
    → IsWellFormed p
    → has_space_for p n ≡ ok (leb (n + 4) (free_end p - free_start p))
unfolding has_space_for
has_space_for-lem {p} n w = rw (
  read16 (as-IsPage w) 14 (omega arith),
  read16 (as-IsPage w) 16 (omega arith),
  le→ltb (free_end p) (free_start p) w.ordered,
)

-- The page after each write of insertRow.
module _ (p : Bytes) (xs : Bytes) where
  abbrev pub new_offset : ℕ
  new_offset = free_end p - length xs

  unfoldable pub page1 : Bytes
  page1 = splice p new_offset xs

  unfoldable pub page2 : Bytes
  page2 = put16 page1 (24 + count p * 4) new_offset

  unfoldable pub page3 : Bytes
  page3 = put16 page2 (24 + count p * 4 + 2) (length xs)

  unfoldable pub page4 : Bytes
  page4 = put16 page3 12 (count p + 1)

  unfoldable pub page5 : Bytes
  page5 = put16 page4 14 (free_start p + 4)

  unfoldable pub inserted : Bytes
  inserted = put16 page5 16 new_offset

module _ {p : Bytes} (w : IsWellFormed p) (xs : Bytes) (xb : AreBytes xs)
    (fits : length xs + 4 ≤ free_end p - free_start p) where
  pub facts : (24 + count p * 4 + 4 + length xs ≤ free_end p) × (free_end p ≤ 4096)
  facts = omega (arith, w.ordered, w.in_page, w.directory)

  pub is_page1 : IsPage (page1 p xs)
  unfolding page1
  is_page1 = splice-IsPage (new_offset p xs) xs (as-IsPage w) xb

  pub is_page2 : IsPage (page2 p xs)
  unfolding page2
  is_page2 = put16-IsPage _ _ is_page1

  pub is_page3 : IsPage (page3 p xs)
  unfolding page3
  is_page3 = put16-IsPage _ _ is_page2

  pub is_page4 : IsPage (page4 p xs)
  unfolding page4
  is_page4 = put16-IsPage _ _ is_page3

  pub is_page5 : IsPage (page5 p xs)
  unfolding page5
  is_page5 = put16-IsPage _ _ is_page4

  pub inserted-IsPage : IsPage (inserted p xs)
  unfolding inserted
  inserted-IsPage = put16-IsPage _ _ is_page5

  -- Up to page3 the header is as it was.
  pub header3 : (r : ℕ) → r + 2 ≤ 24 → uint 2 (page3 p xs) r ≡ uint 2 p r
  unfolding page1 page2 page3
  header3 r h =
      put16_ne _ _ _ r (omega arith)
      ∙ put16_ne _ _ _ r (omega arith)
      ∙ uint-splice_ne 2 p (new_offset p xs) xs r (omega (arith, facts))

  start4 : uint 2 (page4 p xs) 14 ≡ free_start p
  unfolding page4
  start4 = put16_ne _ 12 _ 14 (omega arith) ∙ header3 14 (omega arith)

  end5 : uint 2 (page5 p xs) 16 ≡ free_end p
  unfolding page4 page5
  end5 =
      put16_ne _ 14 _ 16 (omega arith) ∙ put16_ne _ 12 _ 16 (omega arith) ∙ header3 16 (omega arith)

  step1 : copy_in p (new_offset p xs) xs ≡ ok (page1 p xs)
  unfolding page1
  step1 = copied (as-IsPage w) (new_offset p xs) xs (omega (arith, facts))

  step2 : write_uint16 (page1 p xs) (24 + count p * 4) (new_offset p xs) ≡ ok (page2 p xs)
  unfolding page2
  step2 = write16 is_page1 _ _ (omega (arith, facts))

  step3 : write_uint16 (page2 p xs) (24 + count p * 4 + 2) (length xs) ≡ ok (page3 p xs)
  unfolding page3
  step3 = write16 is_page2 _ _ (omega (arith, facts))

  step4 : write_uint16 (page3 p xs) 12 (count p + 1) ≡ ok (page4 p xs)
  unfolding page4
  step4 = write16 is_page3 _ _ (omega arith)

  step5 : write_uint16 (page4 p xs) 14 (free_start p + 4) ≡ ok (page5 p xs)
  unfolding page5
  step5 = write16 is_page4 _ _ (omega arith)

  step6 : write_uint16 (page5 p xs) 16 (new_offset p xs) ≡ ok (inserted p xs)
  unfolding inserted
  step6 = write16 is_page5 _ _ (omega arith)

  no_wrap : sub_u16 (free_end p) (length xs) ≡ new_offset p xs
  no_wrap = omega (arith, facts)

  slot_no_wrap : slot_offset (count p) ≡ 24 + count p * 4
  slot_no_wrap = omega (arith, facts)

  size_no_wrap : length xs % 65536 ≡ length xs
  size_no_wrap = omega (arith, facts)

  count_no_wrap : (count p + 1) % 65536 ≡ count p + 1
  count_no_wrap = omega (arith, facts)

  start_no_wrap : (free_start p + 4) % 65536 ≡ free_start p + 4
  start_no_wrap = omega (arith, facts)

  -- With space for the payload insertRow returns the next slot id and that page.
  pub insert_row-lem : insert_row p xs ≡ ok (count p, inserted p xs)
  unfolding insert_row
  insert_row-lem = rw (
    read16 (as-IsPage w) 14 (omega arith),
    read16 (as-IsPage w) 16 (omega arith),
    le→ltb (free_end p) (free_start p) w.ordered,
    le→leb (length xs + 4) (free_end p - free_start p) fits,
    read16 (as-IsPage w) 12 (omega arith),
    no_wrap,
    slot_no_wrap,
    size_no_wrap,
    step1,
    step2,
    step3,
    read16 is_page3 12 (omega arith),
    header3 12 (omega arith),
    count_no_wrap,
    step4,
    read16 is_page4 14 (omega arith),
    start4,
    start_no_wrap,
    step5,
    read16 is_page5 16 (omega arith),
    end5,
    no_wrap,
    step6,
  )
