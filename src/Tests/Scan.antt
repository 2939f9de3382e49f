-- ===== src/Tests/Scan.antt =====
-- The theorems at concrete inputs: a table of one row.
use relational_db_engine.Common.{
  ◌+◌, ◌^◌, ◌<◌, ◌≡◌, ◌≢◌, refl, get_or, arith, [], ◌∷◌, none, some, true, false, replicate,
}
use relational_db_engine.Common.Int.{pos}
use relational_db_engine.Core.Constants.{invalid_page_id}
use relational_db_engine.Core.Status.{Result, ok, err, io_error}
use relational_db_engine.Core.Memory.{Bytes, peek, poke, copy_in, copy_out}
use relational_db_engine.Core.Helper.{read_uint16, write_uint16, read_uint32, write_uint32}
use relational_db_engine.Buffer.Disk.{DiskApi}
use relational_db_engine.Buffer.Page
use relational_db_engine.Buffer.Page.{Page, new_page}
use relational_db_engine.Buffer.LruReplacer
use relational_db_engine.Buffer.BufferPool.{fetch_page, unpin_page}
use relational_db_engine.Record.LogicalType.{LogicalType}
use relational_db_engine.Record.Schema.{Schema}
use relational_db_engine.Record.Value.{Value}
use relational_db_engine.Record.Layout.{align_to, null_bitmap_size, end_of_values, encoded_size}
use relational_db_engine.Record.Codec.{encode, decode}
use relational_db_engine.Record.SlottedPage
use relational_db_engine.Record.SlottedPage.{
  initialize, has_space_for, slot_count, next_page_id, free_start_offset, free_end_offset,
}
use relational_db_engine.Record.PagedTable
use relational_db_engine.Record.PagedTable.{Table}
use relational_db_engine.Record.TableIterator.{
  Iterator, TableIteratorEntry, new_iterator, has_next, next,
}
use relational_db_engine.Record.TableIterator.Chain.{ChainPage, IsChain, chain_entries}
use relational_db_engine.Record.TableIterator.Scan.{Scans, new_iterator-Scans}
use relational_db_engine.Record.TableIterator.Cached.{next-has_next}

abbrev no_disk : DiskApi
no_disk = record {
  State = Unit {0};
  allocate_page = λ d. (err io_error, d);
  read_page = λ id d. (err io_error, d);
  write_page = λ id bytes d. (err io_error, d);
}

abbrev bytes_of : Result Bytes → Bytes
bytes_of (ok bytes) = bytes
bytes_of _ = []

abbrev numbers : Schema
numbers = record {
  columns =
      record {
        name = 110 ∷ [];
        type = LogicalType.int32;
        nullable = true;
        primary_key = false;
        string_capacity = 0;
      }
      ∷ [];
}

abbrev empty_table : Table no_disk
empty_table = record {
  pool = record {
    disk = tt;
    pages =
        record {
          id = 1;
          bytes = bytes_of (initialize (replicate 4096 0) 1);
          pin_count = 0;
          is_dirty = false;
        }
        ∷ [];
    free_slots = [];
    page_slot = (1, 0) ∷ [];
    replacer = record {
      capacity = 1;
      lru_list = record { node = 0; slot = 0 } ∷ [];
      slot_positions = (0, 0) ∷ [];
      next_node = 1;
    };
  };
  schema = numbers;
  first_page_id = 1;
  last_page_id = 1;
}

abbrev table : Table no_disk
table = (PagedTable.insert_row no_disk (record { values = Value.int32 (pos 7) ∷ [] }) empty_table).1

abbrev scan : Iterator no_disk
scan = new_iterator table.pool numbers 1

abbrev loaded : Iterator no_disk
loaded = (has_next no_disk 1 scan).1

loads : has_next no_disk 1 scan ≡ (ok true, loaded)
unfolding has_next new_iterator PagedTable.insert_row initialize replicate fetch_page unpin_page
    LruReplacer.pin LruReplacer.unpin Page.pin Page.unpin SlottedPage.insert_row
    SlottedPage.read_row has_space_for slot_count free_start_offset free_end_offset read_uint16
    write_uint16 read_uint32 write_uint32 peek poke copy_in copy_out encode decode align_to
    null_bitmap_size end_of_values encoded_size
loads = refl

next-has_next_example :
    (entry : TableIteratorEntry) × (loaded.cached_entry ≡ some entry)
    × (has_next no_disk 0 loaded ≡ (ok true, loaded))
    × (next no_disk 0 loaded ≡ (ok entry, record loaded { cached_entry = none }))
next-has_next_example = next-has_next no_disk 1 0 scan loaded loads

abbrev encoded : Bytes
encoded = 1 ∷ 0 ∷ 0 ∷ 0 ∷ 0 ∷ 0 ∷ 0 ∷ 0 ∷ 7 ∷ 0 ∷ 0 ∷ 0 ∷ 0 ∷ 0 ∷ 0 ∷ 0 ∷ []

-- The page of the table in the pool.
abbrev held : Page
held = get_or table.pool.pages 0 new_page

abbrev only : ChainPage
only = record {
  page = held;
  slot = 0;
  next = 0xffff_ffff;
  rows = some (record { values = Value.int32 (pos 7) ∷ [] }) ∷ [];
}

only-IsChain : IsChain no_disk table.pool numbers 1 (only ∷ [])
unfolding PagedTable.insert_row initialize replicate fetch_page unpin_page LruReplacer.pin
    LruReplacer.unpin Page.pin Page.unpin SlottedPage.insert_row SlottedPage.read_row has_space_for
    slot_count free_start_offset free_end_offset next_page_id read_uint16 write_uint16 read_uint32
    write_uint32 peek poke copy_in copy_out encode decode align_to null_bitmap_size end_of_values
    encoded_size new_page
only-IsChain =
    let slot : 0 < 1 = omega arith in
    let pins : 0 + 1 < 2 ^ 32 = omega arith in
    let page : 1 ≢ invalid_page_id = omega arith in
    (
      refl,
      record {
        resident = record { found = refl; at = refl; below = slot; room = pins };
        valid = page;
        count = refl;
        few = omega arith;
        link = refl;
        rows = ((encoded, refl, refl), tt);
      },
      refl,
    )

new_iterator-Scans_example :
    Scans no_disk 3 (new_iterator table.pool numbers 1) (chain_entries (only ∷ []))
new_iterator-Scans_example =
    new_iterator-Scans no_disk table.pool numbers 1 (only ∷ []) 3 only-IsChain (omega arith)
