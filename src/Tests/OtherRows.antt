-- ===== src/Tests/OtherRows.antt =====
-- The theorem on other rows at a concrete input: a page of two rows, of which the first is deleted.
use relational_db_engine.Common.{◌≡◌, refl, subst, [], ◌∷◌, replicate, arith}
use relational_db_engine.Core.Status.{ok}
use relational_db_engine.Core.Memory.{Bytes, peek, poke, copy_in}
use relational_db_engine.Core.Helper.{read_uint16, write_uint16, write_uint32}
use relational_db_engine.Buffer.Page.{Page}
use relational_db_engine.Buffer.BufferPool.Resident.{IsResident}
use relational_db_engine.Record.SlottedPage
use relational_db_engine.Record.SlottedPage.{
  initialize, has_space_for, slot_count, free_start_offset, free_end_offset,
}
use relational_db_engine.Record.SlottedPage.Invariant.{IsWellFormed}
use relational_db_engine.Record.SlottedPage.Operations.{Keeps, PageCall, call, call-Keeps}
use relational_db_engine.Record.PagedTable.{Table, read_row, delete_row}
use relational_db_engine.Tests.Decode.{all_below-AreBytes}
use relational_db_engine.Record.PagedTable.Others.{RowCall, on_page, read_row-on_rid}
use relational_db_engine.Tests.Table.{
  no_disk, bytes_of, page_of, empty_page, table, encoded_eight, filled, filled-IsWellFormed,
}

-- A second row.
abbrev filled_twice : Bytes
filled_twice = page_of (SlottedPage.insert_row filled encoded_eight)

fills_again : SlottedPage.insert_row filled encoded_eight ≡ ok (1, filled_twice)
unfolding initialize replicate SlottedPage.insert_row has_space_for slot_count free_start_offset
    free_end_offset read_uint16 write_uint16 write_uint32 peek poke copy_in
fills_again = refl

filled_twice-IsWellFormed : IsWellFormed filled_twice
unfolding call
filled_twice-IsWellFormed =
    let kept =
      call-Keeps filled (PageCall.insert encoded_eight) filled-IsWellFormed
        (all_below-AreBytes encoded_eight refl) in
    let made : call filled (PageCall.insert encoded_eight) ≡ ok filled_twice =
      rw fills_again refl in
    subst Keeps made kept

abbrev two_rows : Page
two_rows = record empty_page { bytes = filled_twice }

abbrev table_of_two : Table no_disk
table_of_two = record table { pool = record (table.pool) { pages = two_rows ∷ [] } }

two_rows-IsResident : IsResident no_disk table_of_two.pool two_rows 0
two_rows-IsResident = record { found = refl; at = refl; below = omega arith; room = omega arith }

abbrev one_left : Bytes
one_left = bytes_of (SlottedPage.delete_row filled_twice 0)

leaves_one : on_page no_disk RowCall.delete table_of_two two_rows 0 ≡ ok one_left
unfolding initialize replicate SlottedPage.insert_row has_space_for slot_count free_start_offset
    free_end_offset read_uint16 write_uint16 write_uint32 peek poke copy_in SlottedPage.delete_row
leaves_one = refl

-- The row of slot 1 is as before when that of slot 0 is deleted.
read_row-on_rid_example :
    (t' : Table no_disk) × (delete_row no_disk (record { page_id = 1; slot_id = 0 }) table_of_two
      ≡ (ok tt, t'))
    × ((read_row no_disk (record { page_id = 1; slot_id = 1 }) t').0
        ≡ (read_row no_disk (record { page_id = 1; slot_id = 1 }) table_of_two).0)
read_row-on_rid_example =
    read_row-on_rid no_disk table_of_two two_rows 0 0 1 RowCall.delete one_left two_rows-IsResident
      filled_twice-IsWellFormed tt (omega arith) leaves_one
