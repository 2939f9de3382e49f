-- ===== src/Catalog/TableManager/Rows.antt =====
-- What the calls on the rows of a table do to the catalog.
use relational_db_engine.Common.{
  set_back, ℕ, ◌≡◌, refl, ap, subst, ◌∙◌, List, Bool, true, false, none, some, inl, inr, get_elem?,
  set, ◌==◌, Option-cases, if◌then◌else◌,
}
use relational_db_engine.Core.Status.{Result, ok, err, fault, not_found}
use relational_db_engine.Core.Memory.{Bytes}
use relational_db_engine.Core.Exec.{Exec, Tried, done, failed, return, attempt, ◌>>=◌}
use relational_db_engine.Core.Exec.Keeping.{KeepsAt}
use relational_db_engine.Core.Exec.After.{After, After-bind, After-attempt}
use relational_db_engine.Buffer.Disk.{DiskApi}
use relational_db_engine.Record.Value.{Row}
use relational_db_engine.Record.PagedTable
use relational_db_engine.Record.PagedTable.{Rid, Table}
use relational_db_engine.Record.TableIterator.{new_iterator}
use relational_db_engine.Catalog.Metadata.{TableMetadata, find_name}
use relational_db_engine.Catalog.Metadata.Index.{IsCatalog}
use relational_db_engine.Catalog.Metadata.Replace.{IsCatalog-set}
use relational_db_engine.Catalog.MetaFile.{MetaFileApi}
use relational_db_engine.Catalog.TableManager.{Manager, save}
use relational_db_engine.Catalog.TableManager.Tables.{
  find_table, metadata_at, on_table, insert_in_table, finish_insert, insert_row, read_row,
  update_row, delete_row, scan,
}
use relational_db_engine.Catalog.TableManager.Persistence.{Listing, listing, save_keeps}

module _ (files : MetaFileApi) (api : DiskApi) (m : Manager files api) (name : Bytes) where
  -- Each of the calls on rows returns NotFound and changes nothing.
  abbrev pub AreNotFound : Row → Rid → Type 0
  AreNotFound row rid =
      (insert_row files api name row m ≡ (err not_found, m))
      × (read_row files api name rid m ≡ (err not_found, m))
      × (update_row files api name rid row m ≡ (err not_found, m))
      × (delete_row files api name rid m ≡ (err not_found, m))
      × (scan files api name m ≡ (err not_found, m))

  -- The pages of a table, and what a call on them leaves of the manager.
  abbrev pub pages_of : TableMetadata → Table api
  pages_of meta = record {
    pool = m.pool;
    schema = meta.schema;
    first_page_id = meta.first_page_id;
    last_page_id = meta.last_page_id;
  }

  abbrev pub left_by : {A : Type 0} → Result A × Table api → Result A × Manager files api
  left_by (r, t) = (r, record m { pool = t.pool })

  -- The calls that read or change rows are those on the pages of the table, and a scan starts at its
  -- first page.
  abbrev pub AreOn : Row → Rid → TableMetadata → Type 0
  AreOn row rid meta =
      (read_row files api name rid m ≡ left_by (PagedTable.read_row api rid (pages_of meta)))
      × (update_row files api name rid row m
          ≡ left_by (PagedTable.update_row api rid row (pages_of meta)))
      × (delete_row files api name rid m ≡ left_by (PagedTable.delete_row api rid (pages_of meta)))
      × (scan files api name m ≡ (ok (new_iterator m.pool meta.schema meta.first_page_id), m))

  pub passed_on :
      (row : Row) (rid : Rid) (i : ℕ) (meta : TableMetadata)
      → find_name name m.index ≡ some i
      → get_elem? m.tables i ≡ some meta
      → AreOn row rid meta
  unfolding read_row update_row delete_row scan
  passed_on row rid i meta found at =
      (rw (found, at) refl, rw (found, at) refl, rw (found, at) refl, rw (found, at) refl)

  -- Where the index has no place for the name.
  pub refused : (row : Row) (rid : Rid) → find_name name m.index ≡ none → AreNotFound row rid
  unfolding insert_row read_row update_row delete_row scan
  refused row rid e = (rw e refl, rw e refl, rw e refl, rw e refl, rw e refl)

  -- The table of the name has at most another last page, and nothing else of the catalog is changed.
  pub record Moved (m' : Manager files api) : Type 0 where
    pub place : ℕ
    pub meta : TableMetadata
    pub last_page_id : ℕ
    pub found : find_name name m.index ≡ some place
    pub at : get_elem? m.tables place ≡ some meta
    pub tables : m'.tables ≡ set m.tables place (record meta { last_page_id = last_page_id })
    pub next : m'.next_table_id ≡ m.next_table_id
    pub index : m'.index ≡ m.index
    pub catalog : IsCatalog m'.next_table_id m'.tables m'.index

  abbrev Kept : Result Rid × Manager files api → Type 0
  Kept = After (listing files api) m (λ rid m'. Moved m')

  bind :
      {A : Type 0} (run : Exec (Manager files api) A) (s : Manager files api)
      → KeepsAt (listing files api) run s
      → listing files api s ≡ listing files api m
      → (k : A → Exec (Manager files api) Rid)
      → ((a : A) (t : Manager files api)
          → listing files api t ≡ listing files api m
          → run s ≡ (ok a, t)
          → Kept (k a t))
      → Kept ((run >>= k) s)
  bind run s keeps q k rest =
      After-bind (listing files api) m (λ rid m'. Moved m') s run keeps q k rest

  place_of :
      (t t' : Manager files api) (i : ℕ)
      → find_table files api name t ≡ (ok i, t')
      → find_name name t.index ≡ some i
  place_of t t' i e = elim (Option-cases (find_name name t.index)) [
    | inl none_at ↦ let no : err not_found ≡ ok i = rw none_at at (ap (λ r. r.0) e) in cc
    | inr (j, some_at) ↦ let same : ok j ≡ ok i = rw some_at at (ap (λ r. r.0) e) in cc
  ]

  metadata_of :
      (t t' : Manager files api) (i : ℕ) (meta : TableMetadata)
      → metadata_at files api i t ≡ (ok meta, t')
      → get_elem? t.tables i ≡ some meta
  metadata_of t t' i meta e = elim (Option-cases (get_elem? t.tables i)) [
    | inl none_at ↦ let no : fault ≡ ok meta = rw none_at at (ap (λ r. r.0) e) in cc
    | inr (u, some_at) ↦ let same : ok u ≡ ok meta = rw some_at at (ap (λ r. r.0) e) in cc
  ]

  module _ (place : ℕ) (meta : TableMetadata) (last : ℕ)
      (found : find_name name m.index ≡ some place) (at : get_elem? m.tables place ≡ some meta)
      (cat : IsCatalog m.next_table_id m.tables m.index) where
    abbrev relisted : List TableMetadata
    relisted = set m.tables place (record meta { last_page_id = last })

    moved :
        (t : Manager files api)
        → listing files api t ≡ (m.next_table_id, relisted, m.index)
        → Moved t
    moved t p =
        let n : t.next_table_id ≡ m.next_table_id = ap (λ (l : Listing). l.0) p in
        let ts : t.tables ≡ relisted = ap (λ (l : Listing). l.1) p in
        let ix : t.index ≡ m.index = ap (λ (l : Listing). l.2) p in
        record {
          place = place;
          meta = meta;
          last_page_id = last;
          found = found;
          at = at;
          tables = ts;
          next = n;
          index = ix;
          catalog =
              rw (n, ts, ix)
                (IsCatalog-set place meta (record meta { last_page_id = last }) cat at refl refl);
        }

    finished :
        (rid : Rid) (r : Tried (Unit {0})) (t : Manager files api)
        → listing files api t ≡ (m.next_table_id, relisted, m.index)
        → Kept (finish_insert files api place meta rid r t)
    unfolding finish_insert
    finished rid (done u) t p = moved t p
    finished rid (failed c) t p =
        let back : set t.tables place meta ≡ m.tables =
          ap (λ (l : Listing). set l.1 place meta) p
          ∙ set_back m.tables place meta (record meta { last_page_id = last }) at in
        let n : t.next_table_id ≡ m.next_table_id = ap (λ (l : Listing). l.0) p in
        let ix : t.index ≡ m.index = ap (λ (l : Listing). l.2) p in rw (back, n, ix) refl

    -- The end of insertRow: save, if the last page is another one.
    saved_if :
        (rid : Rid) (t : Manager files api)
        → listing files api t ≡ (m.next_table_id, relisted, m.index)
        → (same : Bool)
        → Kept (
            (if same
                then return rid
                else (attempt (save files api) >>= finish_insert files api place meta rid))
              t)
    saved_if rid t p true = moved t p
    saved_if rid t p false =
        After-attempt (listing files api) m (λ rid m'. Moved m') t (save files api)
          (save_keeps files api t) _ λ r t' p'. finished rid r t' (p' ∙ p)

  -- insertRow on a catalog: when it succeeds, the name has a table, which has at most another last
  -- page, and nothing else of the catalog is changed; when it fails, at whatever call, the tables,
  -- the index and the next id are as before.
  pub insert_row-Moved :
      (row : Row)
      → IsCatalog m.next_table_id m.tables m.index
      → After (listing files api) m (λ rid m'. Moved m') (insert_row files api name row m)
  unfolding insert_row
  insert_row-Moved row cat = bind (find_table files api name) m refl refl _ λ i t p e.
      bind (metadata_at files api i) t refl p _ λ meta t1 p1 e1.
        bind (on_table files api meta (insert_in_table files api row)) t1 refl p1 _
          λ inserted t2 p2 e2.
            let found : find_name name m.index ≡ some i = place_of m t i e in
            let at : get_elem? m.tables i ≡ some meta =
              subst (λ (l : Listing). get_elem? l.1 i ≡ some meta) p (metadata_of t t1 i meta e1) in
            let put : Manager files api = record t2 {
              tables = set t2.tables i (record meta { last_page_id = inserted.1 });
            } in
            let relist : Listing → Listing =
              λ l. (l.0, set l.1 i (record meta { last_page_id = inserted.1 }), l.2) in
            saved_if i meta inserted.1 found at cat inserted.0 put (ap relist p2)
              (meta.last_page_id == inserted.1)
