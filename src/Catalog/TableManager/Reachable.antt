-- ===== src/Catalog/TableManager/Reachable.antt =====
-- The states that a TableManager goes through.
use relational_db_engine.Common.{
  ℕ, ◌+◌, ◌^◌, ◌<◌, ◌≡◌, ◌≢◌, ◌⊎◌, refl, sym, ap, subst, ◌∙◌, inl, inr, none, some, get_elem?,
  Option-cases, arith,
}
use relational_db_engine.Core.Status.{Result, ok, err, fault, require, io_error}
use relational_db_engine.Core.Memory.{Bytes}
use relational_db_engine.Core.Exec.{Exec, lift, ◌>>=◌}
use relational_db_engine.Core.Exec.Keeping.{KeepsAt, KeepsAt-bind}
use relational_db_engine.Core.Exec.After.{After, After-bind}
use relational_db_engine.Buffer.Disk.{DiskApi}
use relational_db_engine.Buffer.BufferPool.{Pool}
use relational_db_engine.Record.Schema.{Schema}
use relational_db_engine.Record.Value.{Row}
use relational_db_engine.Record.PagedTable
use relational_db_engine.Record.PagedTable.{Rid}
use relational_db_engine.Catalog.Metadata.{TableMetadata, find_name}
use relational_db_engine.Catalog.Metadata.Index.{All, IsCatalog, position-none, position-some}
use relational_db_engine.Catalog.MetaReader.{deserialize}
use relational_db_engine.Catalog.MetaReader.Loading.{deserialize-IsChecked}
use relational_db_engine.Catalog.MetaFile.{MetaFileApi}
use relational_db_engine.Catalog.TableManager.{
  Manager, new_manager, init_if_absent, load, load_contents, adopt, open_manager,
}
use relational_db_engine.Catalog.TableManager.Tables.{
  find_table, metadata_at, on_table, create_table, insert_row, read_row, update_row, delete_row,
  scan, iterator_of,
}
use relational_db_engine.Catalog.TableManager.Persistence.{Listing, listing}
use relational_db_engine.Catalog.TableManager.Created.{create_table-Extended}
use relational_db_engine.Catalog.TableManager.Rows.{
  insert_row-Moved, AreNotFound, AreOn, refused, passed_on,
}

module _ (files : MetaFileApi) (api : DiskApi) where
  -- A call of a method that returns, with whatever status. A table is created while the next table
  -- id is not the last of 32 bits.
  pub data Step (m : Manager files api) : Manager files api → Type 0 where
    created :
        (name : Bytes) (schema : Schema)
        → m.next_table_id + 1 < 2 ^ 32
        → (create_table files api name schema m).0 ≢ fault
        → Step m (create_table files api name schema m).1
    inserted :
        (name : Bytes) (row : Row)
        → (insert_row files api name row m).0 ≢ fault
        → Step m (insert_row files api name row m).1
    read : (name : Bytes) (rid : Rid) → Step m (read_row files api name rid m).1
    updated :
        (name : Bytes) (rid : Rid) (row : Row) → Step m (update_row files api name rid row m).1
    deleted : (name : Bytes) (rid : Rid) → Step m (delete_row files api name rid m).1
    scanned : (name : Bytes) → Step m (scan files api name m).1

  pub data Reachable : Manager files api → Type 0 where
    opened :
        (w : files.World) (pool : Pool api) (m : Manager files api)
        → open_manager files api w pool ≡ (ok tt, m)
        → Reachable m
    stepped : (m m' : Manager files api) → Reachable m → Step m m' → Reachable m'

  abbrev IsListing : Listing → Type 0
  IsListing l = IsCatalog l.0 l.1 l.2

  After-IsListing :
      {B : Type 0} (Q : B → Manager files api → Type 0) (m : Manager files api)
      (run : Result B × Manager files api)
      → After (listing files api) m Q run
      → run.0 ≢ fault
      → IsListing (listing files api m)
      → ((b : B) (t : Manager files api) → Q b t → IsListing (listing files api t))
      → IsListing (listing files api run.1)
  After-IsListing Q m (ok b, m') a r c good = good b m' a
  After-IsListing Q m (err e, m') a r c good = subst IsListing (sym a) c
  After-IsListing Q m (fault, m') a r c good = absurd (r refl)

  -- A call on the rows of a table that changes no field.
  call_keeps :
      {A : Type 0} (m : Manager files api) (name : Bytes)
      (k : TableMetadata → Exec (Manager files api) A)
      → ((meta : TableMetadata) (t : Manager files api) → KeepsAt (listing files api) (k meta) t)
      → KeepsAt
          (listing files api)
          (find_table files api name >>= λ i. metadata_at files api i >>= k)
          m
  call_keeps m name k keeps =
      KeepsAt-bind (listing files api) m (find_table files api name) refl _ λ i t p e.
        KeepsAt-bind (listing files api) t (metadata_at files api i) refl _
          λ meta t' p' e'. keeps meta t'

  step-IsListing :
      (m m' : Manager files api)
      → IsListing (listing files api m)
      → Step m m'
      → IsListing (listing files api m')
  unfolding read_row update_row delete_row scan
  step-IsListing m m' c (created name schema small r) =
      After-IsListing _ m (create_table files api name schema m)
        (create_table-Extended files api name schema m c small) r c (λ u t x. x.catalog)
  step-IsListing m m' c (inserted name row r) =
      After-IsListing _ m (insert_row files api name row m)
        (insert_row-Moved files api m name row c) r c (λ u t x. x.catalog)
  step-IsListing m m' c (read name rid) =
      let k = λ (meta : TableMetadata). on_table files api meta (PagedTable.read_row api rid) in
      subst IsListing (sym (call_keeps m name k (λ meta t. refl))) c
  step-IsListing m m' c (updated name rid row) =
      let k =
        λ (meta : TableMetadata). on_table files api meta (PagedTable.update_row api rid row) in
      subst IsListing (sym (call_keeps m name k (λ meta t. refl))) c
  step-IsListing m m' c (deleted name rid) =
      let k = λ (meta : TableMetadata). on_table files api meta (PagedTable.delete_row api rid) in
      subst IsListing (sym (call_keeps m name k (λ meta t. refl))) c
  step-IsListing m m' c (scanned name) =
      subst IsListing (sym (call_keeps m name (iterator_of files api) (λ meta t. refl))) c

  unchecked : Manager files api → Unit {0}
  unchecked m = tt

  load-IsListing :
      (m : Manager files api)
      → After unchecked m (λ u t. IsListing (listing files api t)) (load files api m)
  unfolding load load_contents unchecked
  load-IsListing m =
      bind (init_if_absent files api (files.exists m.world)) m (λ u. load_contents files api)
        λ u t e. bind (lift (require (files.can_open t.world) io_error)) t _ λ u1 t1 e1.
          bind (lift (deserialize (files.contents t1.world))) t1 (adopt files api) λ loaded t2 e2.
            (deserialize-IsChecked (files.contents t1.world) loaded.0 loaded.1 (ap (λ r. r.0) e2)).0
    where
      bind :
          {A : Type 0} (run : Exec (Manager files api) A) (s : Manager files api)
          (k : A → Exec (Manager files api) (Unit {0}))
          → ((a : A) (t : Manager files api)
              → run s ≡ (ok a, t)
              → After unchecked m (λ u t. IsListing (listing files api t)) (k a t))
          → After unchecked m (λ u t. IsListing (listing files api t)) ((run >>= k) s)
      bind run s k rest =
          After-bind unchecked m (λ u t. IsListing (listing files api t)) s run refl refl k
            λ a t p e. rest a t e

  -- In every state that a TableManager goes through after a successful open, whatever file was opened
  -- and whatever calls failed since, the table ids are distinct and below the next table id, the
  -- names are distinct, and the index gives for each name the place of its table. The calls return,
  -- and a table is created while the next table id is not the last of 32 bits.
  pub Reachable-IsCatalog :
      (m : Manager files api) → Reachable m → IsCatalog m.next_table_id m.tables m.index
  unfolding open_manager
  Reachable-IsCatalog _ (opened w pool m e) =
      subst (After unchecked m (λ u t. IsListing (listing files api t))) e
        (load-IsListing (new_manager w pool))
  Reachable-IsCatalog _ (stepped before m r s) =
      step-IsListing before m (Reachable-IsCatalog before r) s

  -- In every such state, a name that find does not find is no table's, and one that it finds is that
  -- of the table at the place of the index, which lies in the vector.
  pub Reachable-find_name :
      (m : Manager files api) (name : Bytes)
      → Reachable m
      → ((find_name name m.index ≡ none) × All (λ t. t.name ≢ name) m.tables)
        ⊎ ((i : ℕ) × (meta : TableMetadata) × (find_name name m.index ≡ some i)
            × (get_elem? m.tables i ≡ some meta)
            × (meta.name ≡ name))
  Reachable-find_name m name r =
      let c = Reachable-IsCatalog m r in
      elim (Option-cases (find_name name m.index)) [
        | inl absent ↦ inl (absent, position-none m.tables 0 name (sym (c.places name) ∙ absent))
        | inr (i, found) ↦
            let (k, meta, e, at, named) =
              position-some m.tables 0 i name (sym (c.places name) ∙ found) in
            let same : k ≡ i = omega arith in
            inr (i, meta, found, subst (λ j. get_elem? m.tables j ≡ some meta) same at, named)
      ]

  -- In every such state and for every name: if no table of the vector has the name, each of the five
  -- calls on rows returns NotFound and changes nothing. If not, a table of the vector has it, and
  -- readRow, updateRow and deleteRow give the result of the call of PagedTable on the pages of that
  -- table and leave the manager as it was but for the pool of that call, and scan returns an iterator
  -- at its first page and changes nothing.
  pub Reachable-on_table :
      (m : Manager files api) (name : Bytes) (row : Row) (rid : Rid)
      → Reachable m
      → (All (λ t. t.name ≢ name) m.tables × AreNotFound files api m name row rid)
        ⊎ ((i : ℕ) × (meta : TableMetadata) × (get_elem? m.tables i ≡ some meta)
            × (meta.name ≡ name)
            × AreOn files api m name row rid meta)
  Reachable-on_table m name row rid r = elim (Reachable-find_name m name r) [
    | inl (absent, others) ↦ inl (others, refused files api m name row rid absent)
    | inr (i, meta, found, at, named) ↦
        inr (i, meta, at, named, passed_on files api m name row rid i meta found at)
  ]
