-- ===== src/Record/SlottedPage.antt =====
-- src/record/SlottedPage.cpp: rows in one page. The slot directory grows up from the header, the
-- rows grow down from the end of the page. A page is 4096 bytes; an operation returns the changed
-- page, and one that fails has not written to it.
pub mod Invariant
pub mod Pages
pub mod Insert
pub mod Inserted
pub mod RowList
pub mod Rows
pub mod Read
pub mod Exchange
pub mod Delete
pub mod Update
pub mod Append
pub mod Initialize
pub mod Operations
pub mod ReadBack
pub mod Others
use relational_db_engine.Common.{
  ℕ, ◌+◌, ◌-◌, ◌*◌, ◌%◌, Bool, true, false, List, [], ◌∷◌, length, replicate, ltb, leb, ◌==◌, ◌||◌,
  not, if◌then◌else◌,
}
use relational_db_engine.Core.Constants.{u16_mod, u64_mod, page_size_bytes, invalid_page_id}
use relational_db_engine.Core.Status.{
  Result, ok, ◌>>=◌, ◌>>◌, require, refuse, invalid_argument, not_found, corruption,
}
use relational_db_engine.Core.Memory.{Bytes, copy_in, copy_out}
use relational_db_engine.Core.Helper.{write_uint16, read_uint16, write_uint32, read_uint32}

abbrev pub table_page_kind : ℕ
table_page_kind = 1

abbrev pub table_page_header_size : ℕ
table_page_header_size = 24

abbrev pub slot_entry_size : ℕ
slot_entry_size = 4

abbrev pub page_id_offset : ℕ
page_id_offset = 0

abbrev pub page_kind_offset : ℕ
page_kind_offset = 4

abbrev pub next_page_id_offset : ℕ
next_page_id_offset = 8

abbrev pub slot_count_offset : ℕ
slot_count_offset = 12

abbrev pub free_start_offset_offset : ℕ
free_start_offset_offset = 14

abbrev pub free_end_offset_offset : ℕ
free_end_offset_offset = 16

-- page.fill(0), then the header.
unfoldable pub initialize : Bytes → ℕ → Result Bytes
initialize page page_id = do
  p1 ← write_uint32 (replicate (length page) 0) page_id_offset page_id
  p2 ← write_uint16 p1 page_kind_offset table_page_kind
  p3 ← write_uint32 p2 8 invalid_page_id
  p4 ← write_uint16 p3 12 0
  p5 ← write_uint16 p4 14 table_page_header_size
  write_uint16 p5 16 (page_size_bytes % u16_mod)

unfoldable pub page_id : Bytes → Result ℕ
page_id page = read_uint32 page page_id_offset

unfoldable pub next_page_id : Bytes → Result ℕ
next_page_id page = read_uint32 page next_page_id_offset

unfoldable pub set_next_page_id : Bytes → ℕ → Result Bytes
set_next_page_id page id = write_uint32 page next_page_id_offset id

unfoldable pub slot_count : Bytes → Result ℕ
slot_count page = read_uint16 page slot_count_offset

unfoldable pub free_start_offset : Bytes → Result ℕ
free_start_offset page = read_uint16 page free_start_offset_offset

unfoldable pub free_end_offset : Bytes → Result ℕ
free_end_offset page = read_uint16 page free_end_offset_offset

-- The sum is an int, which the return type cuts to 16 bits.
abbrev pub slot_offset : ℕ → ℕ
slot_offset slot_id = (table_page_header_size + slot_id * slot_entry_size) % u16_mod

-- a - b in size_t, cut to the uint16_t that it is stored in.
abbrev pub sub_u16 : ℕ → ℕ → ℕ
sub_u16 a b = (a + u64_mod - b) % u64_mod % u16_mod

unfoldable pub has_space_for : Bytes → ℕ → Result Bool
unfolding free_start_offset free_end_offset
has_space_for page payload_size = do
  start ← free_start_offset page
  end ← free_end_offset page
  if ltb end start then ok false else ok (leb (payload_size + slot_entry_size) (end - start))

unfoldable pub insert_row : Bytes → Bytes → Result (ℕ × Bytes)
unfolding has_space_for slot_count
insert_row page payload = do
  fits ← has_space_for page (length payload)
  require fits invalid_argument
  new_slot_id ← slot_count page
  end ← free_end_offset page
  let new_slot_offset = slot_offset new_slot_id
  let new_row_offset = sub_u16 end (length payload)
  p1 ← copy_in page new_row_offset payload
  p2 ← write_uint16 p1 new_slot_offset new_row_offset
  p3 ← write_uint16 p2 (new_slot_offset + 2) (length payload % u16_mod)
  count ← slot_count p3
  p4 ← write_uint16 p3 slot_count_offset ((count + 1) % u16_mod)
  start ← free_start_offset p4
  p5 ← write_uint16 p4 free_start_offset_offset ((start + slot_entry_size) % u16_mod)
  end' ← free_end_offset p5
  p6 ← write_uint16 p5 free_end_offset_offset (sub_u16 end' (length payload))
  ok (new_slot_id, p6)

unfoldable pub read_row : Bytes → ℕ → Result Bytes
unfolding slot_count
read_row page slot_id = do
  count ← slot_count page
  refuse (leb count slot_id) invalid_argument
  row_offset ← read_uint16 page (slot_offset slot_id)
  row_size ← read_uint16 page (slot_offset slot_id + 2)
  refuse (row_size == 0) not_found
  copy_out page row_offset row_size

unfoldable pub delete_row : Bytes → ℕ → Result Bytes
unfolding slot_count
delete_row page slot_id = do
  count ← slot_count page
  refuse (leb count slot_id) invalid_argument
  row_size ← read_uint16 page (slot_offset slot_id + 2)
  refuse (row_size == 0) not_found
  write_uint16 page (slot_offset slot_id + 2) 0

unfoldable pub update_row : Bytes → ℕ → Bytes → Result Bytes
unfolding slot_count free_end_offset
update_row page slot_id payload = do
  count ← slot_count page
  refuse (leb count slot_id) invalid_argument
  row_offset ← read_uint16 page (slot_offset slot_id)
  row_size ← read_uint16 page (slot_offset slot_id + 2)
  refuse (row_size == 0) not_found
  end ← free_end_offset page
  refuse (ltb page_size_bytes (row_offset + row_size) || ltb row_offset end) corruption
  refuse (not (length payload == row_size)) invalid_argument
  copy_in page row_offset payload
