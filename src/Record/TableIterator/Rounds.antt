-- ===== src/Record/TableIterator/Rounds.antt =====
-- A round of the loop of loadNext on a page that is in the pool.
use relational_db_engine.Common.{
  ℕ, ◌+◌, ◌%◌, ◌≤◌, ◌<◌, ◌≡◌, refl, true, false, none, some, leb, ◌==◌, if◌then◌else◌, arith,
}
use relational_db_engine.Core.Constants.{u16_mod, invalid_page_id, invalid_slot_id}
use relational_db_engine.Core.Status.{ok, err, not_found}
use relational_db_engine.Core.Memory.{Bytes}
use relational_db_engine.Buffer.Disk.{DiskApi}
use relational_db_engine.Buffer.Page.{Page}
use relational_db_engine.Buffer.BufferPool.{Pool}
use relational_db_engine.Buffer.BufferPool.Resident.{IsResident, Same, fetched_as_before}
use relational_db_engine.Record.Value.{Row}
use relational_db_engine.Record.Codec.{decode}
use relational_db_engine.Record.SlottedPage
use relational_db_engine.Record.TableIterator.{
  Iterator, unpin_slot_page, leave_page, skip_or_fail, entry_of, take_row, read_next, round,
}

past : (n k : ℕ) → n ≤ k → leb n k ≡ true
past n k h = ground arith

within : (n k : ℕ) → k < n → leb n k ≡ false
within n k h = ground arith

module _ (api : DiskApi) (t : Iterator api) (page : Page) (slot n : ℕ)
    (r : IsResident api t.pool page slot) (here : t.next_page_id ≡ page.id)
    (count : SlottedPage.slot_count page.bytes ≡ ok n) where
  -- Behind the last slot: on to the next page.
  pub leaves :
      (next : ℕ)
      → SlottedPage.next_page_id page.bytes ≡ ok next
      → n ≤ t.next_slot_id
      → (pool : Pool api) × (round api t ≡ (
        ok none,
        record t {
          pool = pool;
          next_page_id = next;
          next_slot_id = if next == invalid_page_id then invalid_slot_id else 0;
        },
      ))
        × Same api t.pool pool
  unfolding round leave_page unpin_slot_page
  leaves next e h =
      let (q, held, p, fetched, at, id, bytes, done, same) =
        fetched_as_before api t.pool page slot r in
      (p, rw (here, fetched, at, bytes, count, past n t.next_slot_id h, e, at, id, done) refl, same)

  -- A deleted row is passed over.
  pub skips :
      t.next_slot_id < n
      → SlottedPage.read_row page.bytes t.next_slot_id ≡ err not_found
      → (pool : Pool api) × (round api t
          ≡ (ok none, record t { pool = pool; next_slot_id = (t.next_slot_id + 1) % u16_mod }))
        × Same api t.pool pool
  unfolding round read_next take_row skip_or_fail unpin_slot_page
  skips h e =
      let (q, held, p, fetched, at, id, bytes, done, same) =
        fetched_as_before api t.pool page slot r in
      (
        p,
        rw (here, fetched, at, bytes, count, within n t.next_slot_id h, e, at, id, done) refl,
        same,
      )

  -- A row is given.
  pub yields :
      (raw : Bytes) (row : Row)
      → t.next_slot_id < n
      → SlottedPage.read_row page.bytes t.next_slot_id ≡ ok raw
      → decode t.schema raw ≡ ok row
      → (pool : Pool api) × (round api t ≡ (
        ok (
            some (record {
              rid = record { page_id = t.next_page_id; slot_id = t.next_slot_id };
              row = row;
            })),
        record t { pool = pool; next_slot_id = (t.next_slot_id + 1) % u16_mod },
      ))
        × Same api t.pool pool
  unfolding round read_next take_row entry_of unpin_slot_page
  yields raw row h e d =
      let (q, held, p, fetched, at, id, bytes, done, same) =
        fetched_as_before api t.pool page slot r in
      (
        p,
        rw (here, fetched, at, bytes, count, within n t.next_slot_id h, e, d, at, id, done) refl,
        same,
      )
