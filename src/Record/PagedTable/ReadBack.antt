-- ===== src/Record/PagedTable/ReadBack.antt =====
-- insertRow, deleteRow and readRow of a table whose page is in the pool, one after the other.
use relational_db_engine.Common.{ℕ, inl, inr, subst, arith, ◌≤◌, ◌<◌, ◌≡◌, refl, length}
use relational_db_engine.Core.Status.{ok, err, not_found}
use relational_db_engine.Core.Memory.{Bytes, AreBytes}
use relational_db_engine.Buffer.Disk.{DiskApi}
use relational_db_engine.Buffer.Page.{Page}
use relational_db_engine.Buffer.BufferPool.{Pool}
use relational_db_engine.Buffer.BufferPool.Resident.{IsResident, Same, fetched_as_before}
use relational_db_engine.Buffer.BufferPool.Changed.{rewritten, visit}
use relational_db_engine.Record.Value.{Row}
use relational_db_engine.Record.Codec.{encode, decode}
use relational_db_engine.Record.Codec.Values.{AllRepresentable}
use relational_db_engine.Record.Schema.{Schema}
use relational_db_engine.Record.Codec.Encode.{size_bounds, encode-total}
use relational_db_engine.Record.Codec.RoundTrip.{AllHaveNoNul, decode-encode_no_nul}
use relational_db_engine.Record.SlottedPage
use relational_db_engine.Record.SlottedPage.Invariant.{IsWellFormed}
use relational_db_engine.Record.SlottedPage.ReadBack
use relational_db_engine.Record.PagedTable.{
  Table, insert_in_page, insert_on_last, insert_row, delete_in_page, delete_row, update_in_page,
  update_row, unpin_slot_page, finish_call, read_in_page, read_row,
}

module _ (api : DiskApi) (t : Table api) (page : Page) (slot : ℕ)
    (r : IsResident api t.pool page slot) where
  -- readRow of a slot of the page that holds an encoded row.
  reads :
      (k : ℕ) (encoded : Bytes) (row : Row)
      → SlottedPage.read_row page.bytes k ≡ ok encoded
      → decode t.schema encoded ≡ ok row
      → (t' : Table api) × (read_row api (record { page_id = page.id; slot_id = k }) t
          ≡ (ok row, t'))
        × Same api t.pool t'.pool
  unfolding read_row read_in_page finish_call unpin_slot_page
  reads k encoded row read decoded =
      let (q, held, p, fetched, at, id, bytes, done, same) =
        fetched_as_before api t.pool page slot r in
      (record t { pool = p }, rw (fetched, at, bytes, read, at, id, done, decoded) refl, same)

  -- insertRow where the last page takes the row.
  inserts :
      (row : Row) (encoded bytes : Bytes) (k : ℕ)
      → t.last_page_id ≡ page.id
      → encode t.schema row ≡ ok encoded
      → SlottedPage.insert_row page.bytes encoded ≡ ok (k, bytes)
      → (p : Pool api) × (insert_row api row t
          ≡ (ok (record { page_id = page.id; slot_id = k }), record t { pool = p }))
        × IsResident api p (rewritten page bytes) slot
  unfolding insert_row insert_in_page insert_on_last
  inserts row encoded bytes k last enc ins =
      let v = visit api t.pool page slot r bytes in
      (v.left, rw (enc, last, v.fetch, v.old_at, v.old_bytes, ins, v.write, v.unpin) refl, v.here)

  -- readRow of a slot of the page whose row was deleted.
  misses :
      (k : ℕ)
      → SlottedPage.read_row page.bytes k ≡ err not_found
      → (t' : Table api) × (read_row api (record { page_id = page.id; slot_id = k }) t
          ≡ (err not_found, t'))
  unfolding read_row read_in_page finish_call unpin_slot_page
  misses k read =
      let (q, held, p, fetched, at, id, bytes, done, same) =
        fetched_as_before api t.pool page slot r in
      (record t { pool = p }, rw (fetched, at, bytes, read, at, id, done) refl)

  -- deleteRow of a row of the page.
  pub deletes :
      (k : ℕ) (bytes : Bytes)
      → SlottedPage.delete_row page.bytes k ≡ ok bytes
      → (p : Pool api) × (delete_row api (record { page_id = page.id; slot_id = k }) t
          ≡ (ok tt, record t { pool = p }))
        × IsResident api p (rewritten page bytes) slot
  unfolding delete_row delete_in_page finish_call unpin_slot_page
  deletes k bytes del =
      let v = visit api t.pool page slot r bytes in
      (
        v.left,
        rw (v.fetch, v.old_at, v.old_bytes, del, v.write, v.new_at, v.new_id, v.unpin) refl,
        v.here,
      )

  -- updateRow of a row of the page.
  pub updates :
      (k : ℕ) (row : Row) (encoded bytes : Bytes)
      → encode t.schema row ≡ ok encoded
      → SlottedPage.update_row page.bytes k encoded ≡ ok bytes
      → (p : Pool api) × (update_row api (record { page_id = page.id; slot_id = k }) row t
          ≡ (ok tt, record t { pool = p }))
        × IsResident api p (rewritten page bytes) slot
  unfolding update_row update_in_page finish_call unpin_slot_page
  updates k row encoded bytes enc upd =
      let v = visit api t.pool page slot r bytes in
      (
        v.left,
        rw (enc, v.fetch, v.old_at, v.old_bytes, upd, v.write, v.new_at, v.new_id, v.unpin) refl,
        v.here,
      )

-- What encode returns are bytes, and not none.
pub encoded-AreBytes :
    (schema : Schema) (row : Row) (encoded : Bytes)
    → length row.values ≤ 255
    → AllRepresentable row.values
    → encode schema row ≡ ok encoded
    → AreBytes encoded × (0 < length encoded)
encoded-AreBytes schema row encoded few rep e = elim (encode-total schema row few rep) [
  | inr (bad, r) ↦ cc
  | inl (fits, (q, made, c)) ↦
      let same : q ≡ encoded = ground arith in
      (
        subst AreBytes same c.bytes,
        subst (λ b. 0 < length b) same (omega (arith, c.size, size_bounds schema)),
      )
]

-- In a table whose last page is in the pool and well formed, for a row of 1 to 255 representable
-- values with no NUL character in its strings: if encode takes the row and the last page takes the
-- encoded row, then insertRow returns the id of that page and the slot, and readRow of that id then
-- returns the row.
pub read_row-insert_row :
    (api : DiskApi) (t : Table api) (page : Page) (slot k : ℕ) (row : Row) (encoded bytes : Bytes)
    → IsResident api t.pool page slot
    → IsWellFormed page.bytes
    → t.last_page_id ≡ page.id
    → 0 < length row.values
    → length row.values ≤ 255
    → AllRepresentable row.values
    → AllHaveNoNul row.values
    → encode t.schema row ≡ ok encoded
    → SlottedPage.insert_row page.bytes encoded ≡ ok (k, bytes)
    → (t' : Table api) × (u : Table api) × (insert_row api row t
        ≡ (ok (record { page_id = page.id; slot_id = k }), t'))
      × (read_row api (record { page_id = page.id; slot_id = k }) t' ≡ (ok row, u))
read_row-insert_row api t page slot k row encoded bytes r w last filled few rep clean enc ins =
    let (are, long) = encoded-AreBytes t.schema row encoded few rep enc in
    let stored = ReadBack.read_row-insert_row page.bytes encoded bytes k w are long ins in
    let (p, inserted, here) = inserts api t page slot r row encoded bytes k last enc ins in
    let (u, read, same) =
      reads api (record t { pool = p }) (rewritten page bytes) slot here k encoded row stored
        (decode-encode_no_nul t.schema row encoded filled few rep clean enc) in
    (record t { pool = p }, u, inserted, read)

-- In a table with a well-formed page in the pool: when the page gives up the row of a slot, deleteRow
-- of its id succeeds, and readRow of that id then answers NotFound.
pub read_row-delete_row :
    (api : DiskApi) (t : Table api) (page : Page) (slot k : ℕ) (bytes : Bytes)
    → IsResident api t.pool page slot
    → IsWellFormed page.bytes
    → SlottedPage.delete_row page.bytes k ≡ ok bytes
    → (t' : Table api) × (u : Table api) × (delete_row api
          (record { page_id = page.id; slot_id = k })
          t
        ≡ (ok tt, t'))
      × (read_row api (record { page_id = page.id; slot_id = k }) t' ≡ (err not_found, u))
read_row-delete_row api t page slot k bytes r w del =
    let (p, deleted, here) = deletes api t page slot r k bytes del in
    let (u, read) =
      misses api (record t { pool = p }) (rewritten page bytes) slot here k
        (ReadBack.read_row-delete_row page.bytes bytes k w del) in
    (record t { pool = p }, u, deleted, read)

-- In a table with a well-formed page in the pool, for a row of 1 to 255 representable values with no
-- NUL character in its strings: if encode takes the row and the page takes the encoded row in place
-- of that of a slot, then updateRow of its id succeeds, and readRow of that id then returns the row.
pub read_row-update_row :
    (api : DiskApi) (t : Table api) (page : Page) (slot k : ℕ) (row : Row) (encoded bytes : Bytes)
    → IsResident api t.pool page slot
    → IsWellFormed page.bytes
    → 0 < length row.values
    → length row.values ≤ 255
    → AllRepresentable row.values
    → AllHaveNoNul row.values
    → encode t.schema row ≡ ok encoded
    → SlottedPage.update_row page.bytes k encoded ≡ ok bytes
    → (t' : Table api) × (u : Table api) × (update_row api
          (record { page_id = page.id; slot_id = k })
          row
          t
        ≡ (ok tt, t'))
      × (read_row api (record { page_id = page.id; slot_id = k }) t' ≡ (ok row, u))
read_row-update_row api t page slot k row encoded bytes r w filled few rep clean enc upd =
    let (are, long) = encoded-AreBytes t.schema row encoded few rep enc in
    let stored = ReadBack.read_row-update_row page.bytes encoded bytes k w are upd in
    let (p, updated, here) = updates api t page slot r k row encoded bytes enc upd in
    let (u, read, same) =
      reads api (record t { pool = p }) (rewritten page bytes) slot here k encoded row stored
        (decode-encode_no_nul t.schema row encoded filled few rep clean enc) in
    (record t { pool = p }, u, updated, read)
