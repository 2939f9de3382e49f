-- ===== src/Record/PagedTable.antt =====
-- include/dandb/record/RID.h, include/dandb/record/PagedTable.h and src/record/PagedTable.cpp. The
-- pool is a reference in the source; here it is a part of the state that a method gets and returns.
pub mod ReadBack
pub mod Others
use relational_db_engine.Common.{ℕ, Bool, true, false}
use relational_db_engine.Core.Memory.{Bytes}
use relational_db_engine.Core.Exec.{
  Exec, Tried, done, failed, return, fail, gets, lift, attempt, modify, zoom, ◌>>=◌, ◌>>◌,
}
use relational_db_engine.Buffer.Disk.{DiskApi}
use relational_db_engine.Buffer.BufferPool.{
  Pool, page_at, write_bytes, fetch_page, unpin_page, new_page_in_pool,
}
use relational_db_engine.Record.Schema.{Schema}
use relational_db_engine.Record.Value.{Row}
use relational_db_engine.Record.Codec.{encode, decode}
use relational_db_engine.Record.SlottedPage

pub record Rid : Type 0 where
  pub page_id : ℕ
  pub slot_id : ℕ

pub record PagedTable (P : Type 0) : Type 0 where
  pub pool : P
  pub schema : Schema
  pub first_page_id : ℕ
  pub last_page_id : ℕ

module _ (api : DiskApi) where
  abbrev pub Table : Type 0
  Table = PagedTable (Pool api)

  abbrev on_pool : {A : Type 0} → Exec (Pool api) A → Exec Table A
  on_pool = zoom (λ t. t.pool) (λ p t. record t { pool = p })

  -- SlottedPage(page->data()).insertRow(encodedRow), through the Page* of a slot of the pool.
  insert_in_page : ℕ → Bytes → Exec Table ℕ
  insert_in_page slot encoded = do
    page ← on_pool (page_at api slot)
    inserted ← lift (SlottedPage.insert_row page.bytes encoded)
    on_pool (write_bytes api slot inserted.1)
    return inserted.0

  -- SlottedPage::initialize(newPage->data(), newPageId)
  initialize_page : ℕ → ℕ → Exec Table (Unit {0})
  initialize_page slot page_id = do
    page ← on_pool (page_at api slot)
    bytes ← lift (SlottedPage.initialize page.bytes page_id)
    on_pool (write_bytes api slot bytes)

  -- The rest of insertRow, by the result of the insertion in the new page.
  insert_on_new : ℕ → ℕ → Tried ℕ → Exec Table Rid
  insert_on_new old_last_page_id new_page_id (failed c) = do
    on_pool (unpin_page api new_page_id true)
    fail c
  insert_on_new old_last_page_id new_page_id (done slot_id) = do
    on_pool (unpin_page api new_page_id true)
    old_slot ← on_pool (fetch_page api old_last_page_id)
    old_page ← on_pool (page_at api old_slot)
    linked ← lift (SlottedPage.set_next_page_id old_page.bytes new_page_id)
    on_pool (write_bytes api old_slot linked)
    on_pool (unpin_page api old_last_page_id true)
    modify (λ t. record t { last_page_id = new_page_id })
    return (record { page_id = new_page_id; slot_id = slot_id })

  -- The rest of insertRow, by the result of the insertion in the last page.
  insert_on_last : ℕ → Bytes → Tried ℕ → Exec Table Rid
  unfolding insert_in_page initialize_page insert_on_new
  insert_on_last old_last_page_id encoded (done slot_id) = do
    on_pool (unpin_page api old_last_page_id true)
    return (record { page_id = old_last_page_id; slot_id = slot_id })
  insert_on_last old_last_page_id encoded (failed c) = do
    on_pool (unpin_page api old_last_page_id false)
    slot ← on_pool (new_page_in_pool api)
    page ← on_pool (page_at api slot)
    initialize_page slot page.id
    inserted ← attempt (insert_in_page slot encoded)
    insert_on_new old_last_page_id page.id inserted

  unfoldable pub insert_row : Row → Exec Table Rid
  unfolding insert_in_page insert_on_last
  insert_row row = do
    schema ← gets (λ t. t.schema)
    encoded ← lift (encode schema row)
    old_last_page_id ← gets (λ t. t.last_page_id)
    slot ← on_pool (fetch_page api old_last_page_id)
    inserted ← attempt (insert_in_page slot encoded)
    insert_on_last old_last_page_id encoded inserted

  -- bpm_.unpinPage(page->pageId(), dirty)
  unpin_slot_page : ℕ → Bool → Exec Table (Unit {0})
  unpin_slot_page slot dirty = do
    page ← on_pool (page_at api slot)
    on_pool (unpin_page api page.id dirty)

  -- After a call on the page: it is unpinned, as changed if the call succeeded and may change it.
  finish_call : {A : Type 0} → ℕ → Bool → Tried A → Exec Table A
  unfolding unpin_slot_page
  finish_call slot dirty (done a) = do unpin_slot_page slot dirty; return a
  finish_call slot dirty (failed c) = do unpin_slot_page slot false; fail c

  read_in_page : ℕ → ℕ → Exec Table Bytes
  read_in_page slot slot_id = do
    page ← on_pool (page_at api slot)
    lift (SlottedPage.read_row page.bytes slot_id)

  unfoldable pub read_row : Rid → Exec Table Row
  unfolding read_in_page finish_call
  read_row rid = do
    slot ← on_pool (fetch_page api rid.page_id)
    read ← attempt (read_in_page slot rid.slot_id)
    raw_row ← finish_call slot false read
    schema ← gets (λ t. t.schema)
    lift (decode schema raw_row)

  delete_in_page : ℕ → ℕ → Exec Table (Unit {0})
  delete_in_page slot slot_id = do
    page ← on_pool (page_at api slot)
    bytes ← lift (SlottedPage.delete_row page.bytes slot_id)
    on_pool (write_bytes api slot bytes)

  unfoldable pub delete_row : Rid → Exec Table (Unit {0})
  unfolding delete_in_page finish_call
  delete_row rid = do
    slot ← on_pool (fetch_page api rid.page_id)
    deleted ← attempt (delete_in_page slot rid.slot_id)
    finish_call slot true deleted

  update_in_page : ℕ → ℕ → Bytes → Exec Table (Unit {0})
  update_in_page slot slot_id encoded = do
    page ← on_pool (page_at api slot)
    bytes ← lift (SlottedPage.update_row page.bytes slot_id encoded)
    on_pool (write_bytes api slot bytes)

  unfoldable pub update_row : Rid → Row → Exec Table (Unit {0})
  unfolding update_in_page finish_call
  update_row rid row = do
    schema ← gets (λ t. t.schema)
    encoded ← lift (encode schema row)
    slot ← on_pool (fetch_page api rid.page_id)
    updated ← attempt (update_in_page slot rid.slot_id encoded)
    finish_call slot true updated
