-- ===== src/Record/PagedTable/Others.antt =====
-- updateRow and deleteRow of a table whose page is in the pool, and the other rows of the page.
use relational_db_engine.Common.{ℕ, ◌⊎◌, ◌≤◌, ◌≡◌, ◌≢◌, refl, ap, ◌∙◌, length, sym, inl, inr}
use relational_db_engine.Core.Status.{StatusCode, Result, ok, err, fault, ◌>>=◌}
use relational_db_engine.Core.Memory.{Bytes}
use relational_db_engine.Core.Exec.{Exec}
use relational_db_engine.Buffer.Disk.{DiskApi}
use relational_db_engine.Buffer.Page.{Page}
use relational_db_engine.Buffer.BufferPool.{Pool}
use relational_db_engine.Buffer.BufferPool.Resident.{IsResident, fetched_as_before}
use relational_db_engine.Buffer.BufferPool.Changed.{rewritten}
use relational_db_engine.Record.Value.{Row}
use relational_db_engine.Record.Codec.{encode, decode}
use relational_db_engine.Record.Codec.Values.{AllRepresentable}
use relational_db_engine.Record.SlottedPage
use relational_db_engine.Record.SlottedPage.Invariant.{IsWellFormed}
use relational_db_engine.Record.SlottedPage.Others
use relational_db_engine.Record.PagedTable.{
  Table, Rid, delete_row, update_row, unpin_slot_page, finish_call, read_in_page, read_row,
}
use relational_db_engine.Record.PagedTable.ReadBack.{deletes, updates, encoded-AreBytes}

Result-cases :
    (x : Result Bytes)
    → ((a : Bytes) × (x ≡ ok a)) ⊎ (((c : StatusCode) × (x ≡ err c)) ⊎ (x ≡ fault))
Result-cases (ok a) = inl (a, refl)
Result-cases (err c) = inr (inl (c, refl))
Result-cases fault = inr (inr refl)

-- A call on the row of a slot.
pub data RowCall : Type 0 where
  delete : RowCall
  update : Row → RowCall

-- The call on a table, and on the bytes of the page.
abbrev pub on_rid : (api : DiskApi) → RowCall → Rid → Exec (Table api) (Unit {0})
on_rid api delete rid = delete_row api rid
on_rid api (update row) rid = update_row api rid row

abbrev pub on_page : (api : DiskApi) → RowCall → Table api → Page → ℕ → Result Bytes
on_page api delete t page k = SlottedPage.delete_row page.bytes k
on_page api (update row) t page k =
    encode t.schema row >>= λ encoded. SlottedPage.update_row page.bytes k encoded

abbrev pub IsFine : RowCall → Type 0
IsFine delete = Unit {0}
IsFine (update row) = (length row.values ≤ 255) × AllRepresentable row.values

module _ (api : DiskApi) (t : Table api) (page : Page) (slot : ℕ)
    (r : IsResident api t.pool page slot) where
  -- What readRow of a slot of the page gives.
  gives :
      (j : ℕ)
      → (read_row api (record { page_id = page.id; slot_id = j }) t).0
        ≡ (SlottedPage.read_row page.bytes j >>= decode t.schema)
  unfolding read_row read_in_page finish_call unpin_slot_page
  gives j =
      let (q, held, p, fetched, at, id, bytes, done, same) =
        fetched_as_before api t.pool page slot r in
      elim (Result-cases (SlottedPage.read_row page.bytes j)) [
        | inl (row, read) ↦ rw (fetched, at, bytes, read, at, id, done) refl
        | inr (inl (c, read)) ↦ rw (fetched, at, bytes, read, at, id, done) refl
        | inr (inr read) ↦ rw (fetched, at, bytes, read) refl
      ]

  -- A call on a slot of the page leaves the page with other bytes in the pool.
  calls :
      (c : RowCall) (k : ℕ) (bytes : Bytes)
      → on_page api c t page k ≡ ok bytes
      → (p : Pool api) × (on_rid api c (record { page_id = page.id; slot_id = k }) t
          ≡ (ok tt, record t { pool = p }))
        × IsResident api p (rewritten page bytes) slot
  calls delete k bytes e = deletes api t page slot r k bytes e
  calls (update row) k bytes e = elim (Result-cases (encode t.schema row)) [
    | inl (encoded, enc) ↦ updates api t page slot r k row encoded bytes enc (rw enc at e)
    | inr (inl (c, enc)) ↦ let no : ◌≡◌ {A = Result Bytes} (err c) (ok bytes) = rw enc at e in cc
    | inr (inr enc) ↦ let no : ◌≡◌ {A = Result Bytes} fault (ok bytes) = rw enc at e in cc
  ]

  -- The bytes that it leaves have the other rows of the page.
  others :
      (c : RowCall) (k j : ℕ) (bytes : Bytes)
      → IsWellFormed page.bytes
      → IsFine c
      → k ≢ j
      → on_page api c t page k ≡ ok bytes
      → SlottedPage.read_row bytes j ≡ SlottedPage.read_row page.bytes j
  others delete k j bytes w fine h e = (Others.delete_row_others page.bytes bytes k j w h e).1
  others (update row) k j bytes w fine h e = elim (Result-cases (encode t.schema row)) [
    | inl (encoded, enc) ↦
        let (are, long) = encoded-AreBytes t.schema row encoded fine.0 fine.1 enc in
        (Others.update_row_others page.bytes bytes k j w h encoded are (rw enc at e)).1
    | inr (inl (c, enc)) ↦ let no : ◌≡◌ {A = Result Bytes} (err c) (ok bytes) = rw enc at e in cc
    | inr (inr enc) ↦ let no : ◌≡◌ {A = Result Bytes} fault (ok bytes) = rw enc at e in cc
  ]

-- In a table with a well-formed page in the pool, for deleteRow, or updateRow to a row of at most 255
-- representable values: if the page takes the call on the row of a slot, then it succeeds, and
-- readRow of every other slot of the page gives what it gave before, errors included.
pub read_row-on_rid :
    (api : DiskApi) (t : Table api) (page : Page) (slot k j : ℕ) (c : RowCall) (bytes : Bytes)
    → IsResident api t.pool page slot
    → IsWellFormed page.bytes
    → IsFine c
    → k ≢ j
    → on_page api c t page k ≡ ok bytes
    → (t' : Table api) × (on_rid api c (record { page_id = page.id; slot_id = k }) t ≡ (ok tt, t'))
      × ((read_row api (record { page_id = page.id; slot_id = j }) t').0
          ≡ (read_row api (record { page_id = page.id; slot_id = j }) t).0)
read_row-on_rid api t page slot k j c bytes r w fine h e =
    let (p, called, here) = calls api t page slot r c k bytes e in
    let now = gives api (record t { pool = p }) (rewritten page bytes) slot here j in
    let before = gives api t page slot r j in
    let same = others api t page slot r c k j bytes w fine h e in
    (record t { pool = p }, called, now ∙ ap (λ b. b >>= decode t.schema) same ∙ sym before)
