-- ===== src/Tests/Manager.antt =====
-- The theorems at concrete inputs: a manager over a file in memory.
use relational_db_engine.Common.{
  ℕ, ◌+◌, ◌≡◌, ◌≢◌, ◌⊎◌, refl, sym, ap, ◌∙◌, List, [], ◌∷◌, Bool, Option, none, some, true, false,
  get_elem?, replicate, arith,
}
use relational_db_engine.Core.Status.{ok, err, fault, io_error}
use relational_db_engine.Core.Memory.{Bytes, peek, poke, copy_in}
use relational_db_engine.Core.Helper.{read_uint32, write_uint16, write_uint32}
use relational_db_engine.Buffer.Page
use relational_db_engine.Buffer.Page.{new_page, reset, set_page_id, set_dirty}
use relational_db_engine.Buffer.LruReplacer
use relational_db_engine.Buffer.LruReplacer.{new_replacer}
use relational_db_engine.Record.SlottedPage.{initialize}
use relational_db_engine.Catalog.Cursor.{take_byte, take_uint32}
use relational_db_engine.Catalog.MetaReader.{deserialize, read_meta, check_magic, read_tables}
use relational_db_engine.Core.Exec.After.{After}
use relational_db_engine.Buffer.Disk.{DiskApi}
use relational_db_engine.Buffer.BufferPool.{
  Pool, new_pool, new_page_in_pool, get_available_slot, unpin_page,
}
use relational_db_engine.Record.LogicalType.{LogicalType}
use relational_db_engine.Record.Schema.{Schema}
use relational_db_engine.Record.Value.{Value, Row}
use relational_db_engine.Record.PagedTable.{Rid}
use relational_db_engine.Catalog.Metadata.{TableMetadata, find_name}
use relational_db_engine.Catalog.MetaWriter.Pieces.{meta_piece}
use relational_db_engine.Catalog.MetaWriter.Written.{serialize_lem}
use relational_db_engine.Catalog.Metadata.Index.{All, IsCatalog}
use relational_db_engine.Catalog.MetaFile.{MetaFileApi, IsFileStore}
use relational_db_engine.Catalog.TableManager.{
  Manager, new_manager, initial_header, init_meta_file, load_contents, save, open_manager,
}
use relational_db_engine.Catalog.TableManager.Tables.{
  new_table_page, finish_create, create_table, insert_row,
}
use relational_db_engine.Catalog.TableManager.Persistence.{listing, open_manager-save}
use relational_db_engine.Catalog.TableManager.Created.{Extended, create_table-Extended}
use relational_db_engine.Catalog.TableManager.Rows.{Moved, AreNotFound, AreOn, insert_row-Moved}
use relational_db_engine.Catalog.TableManager.Opened.{all_succeed, open_manager-init_meta_file}
use relational_db_engine.Catalog.TableManager.Reachable.{
  Reachable, opened, stepped, created, Reachable-IsCatalog, Reachable-find_name, Reachable-on_table,
}
use relational_db_engine.Tests.Catalog.{tables, index, tables-IsStorable, tables-IsCatalog}

abbrev contents_of : Option Bytes → Bytes
contents_of none = []
contents_of (some bytes) = bytes

abbrev is_there : Option Bytes → Bool
is_there none = false
is_there (some bytes) = true

-- A file that may be there, and takes all that is written.
abbrev in_memory : MetaFileApi
in_memory = record {
  World = Option Bytes;
  exists = λ w. some (is_there w);
  make_parent = λ w. (true, w);
  create_file = λ w. (true, some []);
  write_file = λ bytes w. (true, some bytes);
  can_open = is_there;
  contents = contents_of;
}

in_memory-IsFileStore : IsFileStore in_memory
in_memory-IsFileStore = record {
  kept = λ w w' bytes e.
      let same : some bytes ≡ w' = ap (λ r. r.1) e in
      (ap (λ v. some (is_there v)) (sym same), ap contents_of (sym same));
}

-- A disk that gives new pages and takes every page.
abbrev growing : DiskApi
growing = record {
  State = ℕ;
  allocate_page = λ d. (ok (d + 1), d + 1);
  read_page = λ id d. (ok (replicate 4096 0), d);
  write_page = λ id bytes d. (ok tt, d);
}

abbrev pool : Pool growing
pool = new_pool growing 2 0

abbrev manager : Manager in_memory growing
manager = record { world = none; pool = pool; next_table_id = 2; tables = tables; index = index }

abbrev saved : Manager in_memory growing
saved = record manager { world = some (meta_piece 2 tables 0) }

saves : save in_memory growing manager ≡ (ok tt, saved)
unfolding save
saves = rw (serialize_lem 2 tables) refl

open_manager-save_example :
    (index : List (Bytes × ℕ)) × (open_manager in_memory growing saved.world pool ≡ (
      ok tt,
      record {
        world = saved.world;
        pool = pool;
        next_table_id = 2;
        tables = tables;
        index = index;
      },
    ))
    × IsCatalog 2 tables index
open_manager-save_example =
    open_manager-save in_memory growing in_memory-IsFileStore manager saved pool (omega arith)
      (omega arith) (omega arith) tables-IsCatalog tables-IsStorable saves refl

abbrev numbers : Schema
numbers = record {
  columns =
      record {
        name = 110 ∷ [];
        type = LogicalType.int32;
        nullable = true;
        primary_key = false;
        string_capacity = 0;
      }
      ∷ [];
}

create_table-Extended_example :
    After
      (listing in_memory growing)
      manager
      (λ u m'. Extended in_memory growing (113 ∷ []) numbers manager m')
      (create_table in_memory growing (113 ∷ []) numbers manager)
create_table-Extended_example =
    create_table-Extended in_memory growing (113 ∷ []) numbers manager tables-IsCatalog
      (omega arith)

abbrev row : Row
row = record { values = Value.null LogicalType.int32 ∷ [] }

insert_row-Moved_example :
    After
      (listing in_memory growing)
      manager
      (λ rid m'. Moved in_memory growing manager (112 ∷ 112 ∷ []) m')
      (insert_row in_memory growing (112 ∷ 112 ∷ []) row manager)
insert_row-Moved_example =
    insert_row-Moved in_memory growing manager (112 ∷ 112 ∷ []) row tables-IsCatalog

abbrev rid : Rid
rid = record { page_id = 1; slot_id = 0 }

-- "DTBL", the next table id 1, no tables, and four bytes.
abbrev first : Manager in_memory growing
first = record (new_manager none pool) {
  world = some (68 ∷ 84 ∷ 66 ∷ 76 ∷ 1 ∷ 0 ∷ 0 ∷ 0 ∷ 0 ∷ 0 ∷ 0 ∷ 0 ∷ 0 ∷ 0 ∷ 0 ∷ 0 ∷ []);
}

opens : open_manager in_memory growing none pool ≡ (ok tt, first)
unfolding open_manager new_manager init_meta_file load_contents initial_header copy_in write_uint32
    replicate poke peek deserialize read_meta check_magic take_byte take_uint32 read_uint32
    read_tables
opens = refl

abbrev second : Manager in_memory growing
second = (create_table in_memory growing (113 ∷ []) numbers first).1

creates : (create_table in_memory growing (113 ∷ []) numbers first).0 ≡ ok tt
unfolding create_table new_table_page finish_create new_manager save new_pool new_page_in_pool
    get_available_slot unpin_page initialize replicate write_uint32 write_uint16 copy_in poke peek
    new_page Page.pin Page.unpin reset set_page_id set_dirty LruReplacer.unpin new_replacer
creates = rw (serialize_lem 2 _) refl

no_fault : (create_table in_memory growing (113 ∷ []) numbers first).0 ≢ fault
no_fault e = let both : ok tt ≡ fault = sym creates ∙ e in cc

second-Reachable : Reachable in_memory growing second
unfolding new_manager
second-Reachable =
    stepped first second (opened none pool first opens)
      (created (113 ∷ []) numbers (omega arith) no_fault)

Reachable-IsCatalog_example : IsCatalog second.next_table_id second.tables second.index
Reachable-IsCatalog_example = Reachable-IsCatalog in_memory growing second second-Reachable

Reachable-find_name_example :
    ((find_name (113 ∷ []) second.index ≡ none) × All (λ t. t.name ≢ 113 ∷ []) second.tables)
    ⊎ ((i : ℕ) × (meta : TableMetadata) × (find_name (113 ∷ []) second.index ≡ some i)
        × (get_elem? second.tables i ≡ some meta)
        × (meta.name ≡ 113 ∷ []))
Reachable-find_name_example =
    Reachable-find_name in_memory growing second (113 ∷ []) second-Reachable

Reachable-on_table_example :
    (All (λ t. t.name ≢ 113 ∷ []) second.tables
      × AreNotFound in_memory growing second (113 ∷ []) row rid)
    ⊎ ((i : ℕ) × (meta : TableMetadata) × (get_elem? second.tables i ≡ some meta)
        × (meta.name ≡ 113 ∷ [])
        × AreOn in_memory growing second (113 ∷ []) row rid meta)
Reachable-on_table_example =
    Reachable-on_table in_memory growing second (113 ∷ []) row rid second-Reachable

open_manager-init_meta_file_example :
    ((all_succeed in_memory growing none pool ≡ true)
      × (open_manager in_memory growing none pool ≡ (ok tt, first)))
    ⊎ ((all_succeed in_memory growing none pool ≡ false)
        × ((open_manager in_memory growing none pool).0 ≡ err io_error))
unfolding new_manager new_pool
open_manager-init_meta_file_example =
    open_manager-init_meta_file in_memory growing none pool in_memory-IsFileStore refl
