-- ===== src/Tests/Table.antt =====
-- The theorems at concrete inputs: a row in a table of one empty page.
use relational_db_engine.Common.{
  ◌^◌, ◌<◌, ◌≡◌, refl, sym, ap, subst, ℕ, [], ◌∷◌, true, false, replicate, length-replicate, arith,
}
use relational_db_engine.Common.Int.{pos}
use relational_db_engine.Core.Status.{Result, ok, err, io_error, not_found}
use relational_db_engine.Core.Memory.{Bytes, AreBytes, peek, poke, copy_in}
use relational_db_engine.Core.Helper.{read_uint16, write_uint16, write_uint32}
use relational_db_engine.Buffer.Disk.{DiskApi}
use relational_db_engine.Buffer.Page.{Page}
use relational_db_engine.Buffer.BufferPool.Resident.{IsResident}
use relational_db_engine.Record.LogicalType.{LogicalType}
use relational_db_engine.Record.Schema.{Schema}
use relational_db_engine.Record.Value.{Value, Row}
use relational_db_engine.Record.Layout.{align_to, null_bitmap_size, end_of_values, encoded_size}
use relational_db_engine.Record.Codec.{encode}
use relational_db_engine.Record.SlottedPage
use relational_db_engine.Record.SlottedPage.{
  initialize, has_space_for, slot_count, free_start_offset, free_end_offset,
}
use relational_db_engine.Record.SlottedPage.Invariant.{IsWellFormed}
use relational_db_engine.Record.SlottedPage.Operations.{Keeps, PageCall, call, call-Keeps}
use relational_db_engine.Record.SlottedPage.Initialize.{initialize-empty}
use relational_db_engine.Record.PagedTable.{Table, insert_row, read_row, delete_row, update_row}
use relational_db_engine.Tests.Decode.{all_below-AreBytes}
use relational_db_engine.Record.PagedTable.ReadBack.{
  read_row-insert_row, read_row-delete_row, read_row-update_row,
}

abbrev pub no_disk : DiskApi
no_disk = record {
  State = Unit {0};
  allocate_page = λ d. (err io_error, d);
  read_page = λ id d. (err io_error, d);
  write_page = λ id bytes d. (err io_error, d);
}

abbrev pub bytes_of : Result Bytes → Bytes
bytes_of (ok bytes) = bytes
bytes_of _ = []

abbrev pub empty_page : Page
empty_page = record {
  id = 1;
  bytes = bytes_of (initialize (replicate 4096 0) 1);
  pin_count = 0;
  is_dirty = false;
}

abbrev numbers : Schema
numbers = record {
  columns =
      record {
        name = 110 ∷ [];
        type = LogicalType.int32;
        nullable = true;
        primary_key = false;
        string_capacity = 0;
      }
      ∷ [];
}

abbrev pub table : Table no_disk
table = record {
  pool = record {
    disk = tt;
    pages = empty_page ∷ [];
    free_slots = [];
    page_slot = (1, 0) ∷ [];
    replacer = record {
      capacity = 1;
      lru_list = record { node = 0; slot = 0 } ∷ [];
      slot_positions = (0, 0) ∷ [];
      next_node = 1;
    };
  };
  schema = numbers;
  first_page_id = 1;
  last_page_id = 1;
}

abbrev seven : Row
seven = record { values = Value.int32 (pos 7) ∷ [] }

abbrev encoded : Bytes
encoded = 1 ∷ 0 ∷ 0 ∷ 0 ∷ 0 ∷ 0 ∷ 0 ∷ 0 ∷ 7 ∷ 0 ∷ 0 ∷ 0 ∷ 0 ∷ 0 ∷ 0 ∷ 0 ∷ []

encodes : encode numbers seven ≡ ok encoded
unfolding encode encoded_size end_of_values null_bitmap_size align_to poke peek replicate
    write_uint32
encodes = refl

abbrev pub page_of : Result (ℕ × Bytes) → Bytes
page_of (ok (k, bytes)) = bytes
page_of _ = []

abbrev pub filled : Bytes
filled = page_of (SlottedPage.insert_row empty_page.bytes encoded)

fills : SlottedPage.insert_row empty_page.bytes encoded ≡ ok (0, filled)
unfolding initialize replicate SlottedPage.insert_row has_space_for slot_count free_start_offset
    free_end_offset read_uint16 write_uint16 write_uint32 peek poke copy_in
fills = refl

empty_page-IsWellFormed : IsWellFormed empty_page.bytes
empty_page-IsWellFormed =
    let (p, made, w, none_yet, id, next) =
      initialize-empty (replicate 4096 0) 1 (length-replicate 4096 0) (omega arith) in
    subst IsWellFormed (sym (ap bytes_of made)) w

read_row-insert_row_example :
    (t' : Table no_disk) × (u : Table no_disk) × (insert_row no_disk seven table
      ≡ (ok (record { page_id = 1; slot_id = 0 }), t'))
    × (read_row no_disk (record { page_id = 1; slot_id = 0 }) t' ≡ (ok seven, u))
read_row-insert_row_example =
    let here : IsResident no_disk table.pool empty_page 0 = record {
      found = refl;
      at = refl;
      below = omega arith;
      room = omega arith;
    } in
    let int : 7 < 2 ^ 31 = omega arith in
    read_row-insert_row no_disk table empty_page 0 0 seven encoded filled here
      empty_page-IsWellFormed refl (omega arith) (omega arith) (int, tt) (tt, tt) encodes fills

pub filled-IsWellFormed : IsWellFormed filled
unfolding call
filled-IsWellFormed =
    let are : AreBytes encoded = all_below-AreBytes encoded refl in
    let kept = call-Keeps empty_page.bytes (PageCall.insert encoded) empty_page-IsWellFormed are in
    let made : call empty_page.bytes (PageCall.insert encoded) ≡ ok filled = rw fills refl in
    subst Keeps made kept

abbrev filled_page : Page
filled_page = record empty_page { bytes = filled }

abbrev filled_table : Table no_disk
filled_table = record table { pool = record (table.pool) { pages = filled_page ∷ [] } }

abbrev emptied : Bytes
emptied = bytes_of (SlottedPage.delete_row filled 0)

empties : SlottedPage.delete_row filled 0 ≡ ok emptied
unfolding initialize replicate SlottedPage.insert_row has_space_for slot_count free_start_offset
    free_end_offset read_uint16 write_uint16 write_uint32 peek poke copy_in SlottedPage.delete_row
empties = refl

filled_page-IsResident : IsResident no_disk filled_table.pool filled_page 0
filled_page-IsResident = record { found = refl; at = refl; below = omega arith; room = omega arith }

read_row-delete_row_example :
    (t' : Table no_disk) × (u : Table no_disk) × (delete_row no_disk
        (record { page_id = 1; slot_id = 0 })
        filled_table
      ≡ (ok tt, t'))
    × (read_row no_disk (record { page_id = 1; slot_id = 0 }) t' ≡ (err not_found, u))
read_row-delete_row_example =
    read_row-delete_row no_disk filled_table filled_page 0 0 emptied filled_page-IsResident
      filled-IsWellFormed empties

abbrev eight : Row
eight = record { values = Value.int32 (pos 8) ∷ [] }

abbrev pub encoded_eight : Bytes
encoded_eight = 1 ∷ 0 ∷ 0 ∷ 0 ∷ 0 ∷ 0 ∷ 0 ∷ 0 ∷ 8 ∷ 0 ∷ 0 ∷ 0 ∷ 0 ∷ 0 ∷ 0 ∷ 0 ∷ []

encodes_eight : encode numbers eight ≡ ok encoded_eight
unfolding encode encoded_size end_of_values null_bitmap_size align_to poke peek replicate
    write_uint32
encodes_eight = refl

abbrev changed : Bytes
changed = bytes_of (SlottedPage.update_row filled 0 encoded_eight)

changes : SlottedPage.update_row filled 0 encoded_eight ≡ ok changed
unfolding initialize replicate SlottedPage.insert_row has_space_for slot_count free_start_offset
    free_end_offset read_uint16 write_uint16 write_uint32 peek poke copy_in SlottedPage.update_row
changes = refl

read_row-update_row_example :
    (t' : Table no_disk) × (u : Table no_disk) × (update_row no_disk
        (record { page_id = 1; slot_id = 0 })
        eight
        filled_table
      ≡ (ok tt, t'))
    × (read_row no_disk (record { page_id = 1; slot_id = 0 }) t' ≡ (ok eight, u))
read_row-update_row_example =
    let int : 8 < 2 ^ 31 = omega arith in
    read_row-update_row no_disk filled_table filled_page 0 0 eight encoded_eight changed
      filled_page-IsResident filled-IsWellFormed (omega arith) (omega arith) (int, tt) (tt, tt)
      encodes_eight changes
