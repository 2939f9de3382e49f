-- ===== src/Record/TableIterator.antt =====
-- include/dandb/record/TableIterator.h and src/record/TableIterator.cpp. The loop of loadNext runs
-- on fuel: one unit for each round.
pub mod Cached
pub mod Rounds
pub mod Chain
pub mod Progress
pub mod Scan
use relational_db_engine.Common.{
  ℕ, zero, suc, ◌+◌, ◌%◌, Bool, true, false, Option, none, some, leb, ◌==◌, ◌||◌, if◌then◌else◌,
}
use relational_db_engine.Core.Constants.{u16_mod, invalid_page_id, invalid_slot_id}
use relational_db_engine.Core.Status.{StatusCode, fault, not_found}
use relational_db_engine.Core.Memory.{Bytes}
use relational_db_engine.Core.Exec.{
  Exec, Tried, done, failed, return, fail, gets, lift, attempt, modify, zoom, ◌>>=◌, ◌>>◌,
}
use relational_db_engine.Buffer.Disk.{DiskApi}
use relational_db_engine.Buffer.BufferPool.{Pool, page_at, fetch_page, unpin_page}
use relational_db_engine.Record.Schema.{Schema}
use relational_db_engine.Record.Value.{Row}
use relational_db_engine.Record.Codec.{decode}
use relational_db_engine.Record.SlottedPage
use relational_db_engine.Record.PagedTable.{Rid}

pub record TableIteratorEntry : Type 0 where
  pub rid : Rid
  pub row : Row

pub record TableIterator (P : Type 0) : Type 0 where
  pub pool : P
  pub schema : Schema
  pub next_page_id : ℕ
  pub next_slot_id : ℕ
  pub cached_entry : Option TableIteratorEntry

unfoldable pub new_iterator : {P : Type 0} → P → Schema → ℕ → TableIterator P
new_iterator pool schema first_page_id = record {
  pool = pool;
  schema = schema;
  next_page_id = first_page_id;
  next_slot_id = 0;
  cached_entry = none;
}

module _ (api : DiskApi) where
  abbrev pub Iterator : Type 0
  Iterator = TableIterator (Pool api)

  abbrev on_pool : {A : Type 0} → Exec (Pool api) A → Exec Iterator A
  on_pool = zoom (λ t. t.pool) (λ p t. record t { pool = p })

  -- bpm_.unpinPage(page->pageId(), false)
  unpin_slot_page : ℕ → Exec Iterator (Unit {0})
  unpin_slot_page slot = do
    page ← on_pool (page_at api slot)
    on_pool (unpin_page api page.id false)

  -- Every slot of the page is passed: on to the next page.
  leave_page : ℕ → Bytes → Exec Iterator (Option TableIteratorEntry)
  unfolding unpin_slot_page
  leave_page slot bytes = do
    next_page_id ← lift (SlottedPage.next_page_id bytes)
    modify (λ t. record t {
      next_page_id = next_page_id;
      next_slot_id = if next_page_id == invalid_page_id then invalid_slot_id else 0;
    })
    unpin_slot_page slot
    return none

  abbrev advance : Exec Iterator (Unit {0})
  advance = modify (λ t. record t { next_slot_id = (t.next_slot_id + 1) % u16_mod })

  -- A row that is not found is a deleted one, which is passed over.
  skip_or_fail : ℕ → StatusCode → Exec Iterator (Option TableIteratorEntry)
  unfolding unpin_slot_page
  skip_or_fail slot not_found = do unpin_slot_page slot; advance; return none
  skip_or_fail slot c = do unpin_slot_page slot; fail c

  entry_of : ℕ → Tried Row → Exec Iterator (Option TableIteratorEntry)
  unfolding unpin_slot_page
  entry_of slot (failed c) = do unpin_slot_page slot; fail c
  entry_of slot (done row) = do
    unpin_slot_page slot
    page_id ← gets (λ t. t.next_page_id)
    slot_id ← gets (λ t. t.next_slot_id)
    advance
    return (some (record { rid = record { page_id = page_id; slot_id = slot_id }; row = row }))

  take_row : ℕ → Tried Bytes → Exec Iterator (Option TableIteratorEntry)
  unfolding skip_or_fail entry_of
  take_row slot (failed c) = skip_or_fail slot c
  take_row slot (done raw_row) = do
    schema ← gets (λ t. t.schema)
    decoded ← attempt (lift (decode schema raw_row))
    entry_of slot decoded

  read_next : ℕ → Bytes → ℕ → Exec Iterator (Option TableIteratorEntry)
  unfolding take_row
  read_next slot bytes slot_id = do
    read ← attempt (lift (SlottedPage.read_row bytes slot_id))
    take_row slot read

  -- One round of the loop: an entry, or none to go on.
  unfoldable pub round : Exec Iterator (Option TableIteratorEntry)
  unfolding leave_page read_next
  round = do
    page_id ← gets (λ t. t.next_page_id)
    slot ← on_pool (fetch_page api page_id)
    page ← on_pool (page_at api slot)
    count ← lift (SlottedPage.slot_count page.bytes)
    slot_id ← gets (λ t. t.next_slot_id)
    if leb count slot_id then leave_page slot page.bytes else read_next slot page.bytes slot_id

  -- The end of a round.
  go_on :
      Exec Iterator TableIteratorEntry
      → Option TableIteratorEntry
      → Exec Iterator TableIteratorEntry
  go_on rest (some entry) = return entry
  go_on rest none = rest

  abbrev exhausted : Iterator → Bool
  exhausted t = t.next_page_id == invalid_page_id || t.next_slot_id == invalid_slot_id

  -- Without fuel the loop is not followed further; `fault` marks it.
  unfoldable pub load_next : ℕ → Exec Iterator TableIteratorEntry
  unfolding round go_on
  load_next zero = lift fault
  load_next (suc fuel) =
      let rest = load_next fuel in
      do over ← gets exhausted; if over then fail not_found else (round >>= go_on rest)

  cache_loaded : Tried TableIteratorEntry → Exec Iterator Bool
  cache_loaded (done entry) = do modify (λ t. record t { cached_entry = some entry }); return true
  cache_loaded (failed not_found) = return false
  cache_loaded (failed c) = fail c

  load_if_empty : ℕ → Option TableIteratorEntry → Exec Iterator Bool
  unfolding cache_loaded load_next
  load_if_empty fuel (some entry) = return true
  load_if_empty fuel none = do loaded ← attempt (load_next fuel); cache_loaded loaded

  unfoldable pub has_next : ℕ → Exec Iterator Bool
  unfolding load_if_empty
  has_next fuel = do cached ← gets (λ t. t.cached_entry); load_if_empty fuel cached

  -- *cachedEntry_
  take_cached : Option TableIteratorEntry → Exec Iterator TableIteratorEntry
  take_cached none = lift fault
  take_cached (some entry) = do modify (λ t. record t { cached_entry = none }); return entry

  unfoldable pub next : ℕ → Exec Iterator TableIteratorEntry
  unfolding has_next take_cached
  next fuel = do
    more ← has_next fuel
    if more then (do cached ← gets (λ t. t.cached_entry); take_cached cached) else fail not_found
