-- ===== src/Catalog/TableManager/Tables.antt =====
-- src/catalog/TableManager.cpp: createTable, and the calls that go to the rows of a table.
use relational_db_engine.Common.{
  ℕ, ◌+◌, ◌-◌, ◌%◌, List, [], ◌∷◌, ◌++◌, true, Option, none, some, length, get_elem?, set, ltb,
  ◌==◌, if◌then◌else◌,
}
use relational_db_engine.Core.Constants.{u32_mod}
use relational_db_engine.Core.Status.{
  Result, ok, err, refuse, invalid_argument, already_exists, not_found,
}
use relational_db_engine.Core.Memory.{Bytes, or_fault}
use relational_db_engine.Core.Exec.{
  Exec, Tried, done, failed, return, fail, gets, lift, attempt, modify, zoom, ◌>>=◌, ◌>>◌,
}
use relational_db_engine.Buffer.Disk.{DiskApi}
use relational_db_engine.Buffer.BufferPool.{page_at, write_bytes, unpin_page, new_page_in_pool}
use relational_db_engine.Record.Schema.{Schema, empty}
use relational_db_engine.Record.Value.{Row}
use relational_db_engine.Record.SlottedPage
use relational_db_engine.Record.PagedTable
use relational_db_engine.Record.PagedTable.{PagedTable, Rid, Table}
use relational_db_engine.Record.TableIterator.{new_iterator, Iterator}
use relational_db_engine.Catalog.Metadata.{TableMetadata, find_name, is_known}
use relational_db_engine.Catalog.MetaFile.{MetaFileApi}
use relational_db_engine.Catalog.TableManager.{Manager, on_pool, save}

-- std::vector::pop_back
abbrev pub pop_back : List TableMetadata → List TableMetadata
pop_back [] = []
pop_back (table ∷ []) = []
pop_back (table ∷ next ∷ tables) = table ∷ pop_back (next ∷ tables)

abbrev place : Option ℕ → Result ℕ
place none = err not_found
place (some i) = ok i

module _ (files : MetaFileApi) (api : DiskApi) where
  abbrev Run : Type 0 → Type 0
  Run A = Exec (Manager files api) A

  -- newPage, SlottedPage::initialize and unpinPage: the id of a new page without rows.
  unfoldable pub new_table_page : Run ℕ
  new_table_page = do
    slot ← on_pool files api (new_page_in_pool api)
    page ← on_pool files api (page_at api slot)
    bytes ← lift (SlottedPage.initialize page.bytes page.id)
    on_pool files api (write_bytes api slot bytes)
    on_pool files api (unpin_page api page.id true)
    return page.id

  -- The end of createTable, by the result of save.
  unfoldable pub finish_create : Bytes → ℕ → Tried (Unit {0}) → Run (Unit {0})
  finish_create name new_table_id (failed c) = do
    modify (λ m. record m { next_table_id = new_table_id; tables = pop_back m.tables })
    fail c
  finish_create name new_table_id (done u) =
      modify (λ m. record m { index = (name, length m.tables - 1) ∷ m.index })

  unfoldable pub create_table : Bytes → Schema → Run (Unit {0})
  unfolding new_table_page finish_create save
  create_table name schema = do
    lift (refuse (empty name) invalid_argument)
    index ← gets (λ m. m.index)
    lift (refuse (is_known (find_name name index)) already_exists)
    lift (refuse (ltb 0xffff (length name)) invalid_argument)
    page_id ← new_table_page
    new_table_id ← gets (λ m. m.next_table_id)
    modify (λ m. record m {
      next_table_id = (new_table_id + 1) % u32_mod;
      tables =
          m.tables
          ++ (record {
            table_id = new_table_id;
            name = name;
            schema = schema;
            first_page_id = page_id;
            last_page_id = page_id;
          }
              ∷ []);
    })
    saved ← attempt (save files api)
    finish_create name new_table_id saved

  -- The place in the vector of the table of a name, or NotFound.
  abbrev pub find_table : Bytes → Run ℕ
  find_table name m = (place (find_name name m.index), m)

  -- tablesMetadata_[i]
  abbrev pub metadata_at : ℕ → Run TableMetadata
  metadata_at i m = (or_fault (get_elem? m.tables i), m)

  abbrev pub put_metadata : ℕ → TableMetadata → Run (Unit {0})
  put_metadata i meta = modify (λ m. record m { tables = set m.tables i meta })

  -- A call of PagedTable(bpm_, meta.schema, meta.firstPageId, meta.lastPageId)
  abbrev pub on_table : {A : Type 0} → TableMetadata → Exec (Table api) A → Run A
  on_table meta =
      zoom
        (λ m. record {
          pool = m.pool;
          schema = meta.schema;
          first_page_id = meta.first_page_id;
          last_page_id = meta.last_page_id;
        })
        (λ t m. record m { pool = t.pool })

  -- insertRow of the table, and then its lastPageId.
  unfoldable pub insert_in_table : Row → Exec (Table api) (Rid × ℕ)
  insert_in_table row = do
    rid ← PagedTable.insert_row api row
    last_page_id ← gets (λ t. t.last_page_id)
    return (rid, last_page_id)

  -- The end of insertRow, by the result of save.
  unfoldable pub finish_insert : ℕ → TableMetadata → Rid → Tried (Unit {0}) → Run Rid
  finish_insert i meta rid (failed c) = do put_metadata i meta; fail c
  finish_insert i meta rid (done u) = return rid

  unfoldable pub insert_row : Bytes → Row → Run Rid
  unfolding insert_in_table finish_insert save
  insert_row name row = do
    i ← find_table name
    meta ← metadata_at i
    inserted ← on_table meta (insert_in_table row)
    put_metadata i (record meta { last_page_id = inserted.1 })
    if meta.last_page_id == inserted.1
        then return inserted.0
        else (do saved ← attempt (save files api); finish_insert i meta inserted.0 saved)

  unfoldable pub read_row : Bytes → Rid → Run Row
  read_row name rid = do
    i ← find_table name
    meta ← metadata_at i
    on_table meta (PagedTable.read_row api rid)

  unfoldable pub update_row : Bytes → Rid → Row → Run (Unit {0})
  update_row name rid row = do
    i ← find_table name
    meta ← metadata_at i
    on_table meta (PagedTable.update_row api rid row)

  unfoldable pub delete_row : Bytes → Rid → Run (Unit {0})
  delete_row name rid = do
    i ← find_table name
    meta ← metadata_at i
    on_table meta (PagedTable.delete_row api rid)

  -- TableIterator{bpm_, meta.schema, meta.firstPageId}
  abbrev pub iterator_of : TableMetadata → Run (Iterator api)
  iterator_of meta = gets (λ m. new_iterator m.pool meta.schema meta.first_page_id)

  unfoldable pub scan : Bytes → Run (Iterator api)
  scan name = do i ← find_table name; meta ← metadata_at i; iterator_of meta
