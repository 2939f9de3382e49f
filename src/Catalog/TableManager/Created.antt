-- ===== src/Catalog/TableManager/Created.antt =====
-- What createTable does to the catalog.
use relational_db_engine.Common.{
  ℕ, suc, ◌+◌, ◌-◌, ◌^◌, ◌%◌, ◌≤◌, ◌<◌, ◌≡◌, refl, ap, subst, ◌∙◌, List, [], ◌∷◌, ◌++◌, Bool, true,
  false, none, length, length-append, ltb, ltb→le, arith,
}
use relational_db_engine.Core.Constants.{u32_mod}
use relational_db_engine.Core.Status.{
  StatusCode, Result, ok, err, refuse, invalid_argument, already_exists,
}
use relational_db_engine.Core.Memory.{Bytes}
use relational_db_engine.Core.Exec.{Exec, Tried, done, failed, lift, ◌>>=◌}
use relational_db_engine.Core.Exec.Keeping.{KeepsAt, KeepsAt-bind}
use relational_db_engine.Core.Exec.After.{After, After-bind, After-attempt}
use relational_db_engine.Buffer.Disk.{DiskApi}
use relational_db_engine.Buffer.BufferPool.{page_at, write_bytes, unpin_page, new_page_in_pool}
use relational_db_engine.Record.Schema.{Schema, empty}
use relational_db_engine.Record.Schema.Valid.{nonempty}
use relational_db_engine.Record.SlottedPage
use relational_db_engine.Catalog.Metadata.{TableMetadata, find_name, is_known}
use relational_db_engine.Catalog.Metadata.Index.{All-map, IsCatalog, IsCatalog-append, unknown_none}
use relational_db_engine.Catalog.MetaFile.{MetaFileApi}
use relational_db_engine.Catalog.TableManager.{Manager, on_pool, save}
use relational_db_engine.Catalog.TableManager.Tables.{
  pop_back, new_table_page, finish_create, create_table,
}
use relational_db_engine.Catalog.TableManager.Persistence.{Listing, listing, save_keeps}

pop_back-append :
    (tables : List TableMetadata) (t : TableMetadata) → pop_back (tables ++ (t ∷ [])) ≡ tables
pop_back-append [] t = refl
pop_back-append (a ∷ []) t = refl
pop_back-append (a ∷ b ∷ tables) t = ap (λ ts. a ∷ ts) (pop_back-append (b ∷ tables) t)

not_refused :
    {S : Type 0} (b : Bool) (c : StatusCode) (s t : S) (u : Unit {0})
    → lift (refuse b c) s ≡ (ok u, t)
    → b ≡ false
not_refused true c s t u e = let no : err c ≡ ok u = ap (λ r. r.0) e in cc
not_refused false c s t u e = refl

-- The table that createTable makes on a page.
abbrev pub made_table : ℕ → Bytes → Schema → ℕ → TableMetadata
made_table id name schema page = record {
  table_id = id;
  name = name;
  schema = schema;
  first_page_id = page;
  last_page_id = page;
}

module _ (files : MetaFileApi) (api : DiskApi) where
  new_table_page_keeps :
      (m : Manager files api) → KeepsAt (listing files api) (new_table_page files api) m
  unfolding new_table_page
  new_table_page_keeps m =
      KeepsAt-bind (listing files api) m (on_pool files api (new_page_in_pool api)) refl _
        λ slot t p e.
          KeepsAt-bind (listing files api) t (on_pool files api (page_at api slot)) refl _
            λ page t1 p1 e1.
              KeepsAt-bind (listing files api) t1 (lift (SlottedPage.initialize page.bytes page.id))
                refl _
                λ bytes t2 p2 e2.
                  KeepsAt-bind (listing files api) t2
                    (on_pool files api (write_bytes api slot bytes)) refl _
                    λ _ t3 p3 e3.
                      KeepsAt-bind (listing files api) t3
                        (on_pool files api (unpin_page api page.id true)) refl _ λ _ t4 p4 e4. refl

  -- The catalog has one table more, behind the others.
  pub record Extended (name : Bytes) (schema : Schema) (m m' : Manager files api) : Type 0 where
    pub page : ℕ
    pub named : (0 < length name) × (length name ≤ 0xffff)
    pub tables : m'.tables ≡ m.tables ++ (made_table m.next_table_id name schema page ∷ [])
    pub next : m'.next_table_id ≡ suc m.next_table_id
    pub catalog : IsCatalog m'.next_table_id m'.tables m'.index

  module _ (name : Bytes) (schema : Schema) (m : Manager files api) where
    abbrev Kept : Result (Unit {0}) × Manager files api → Type 0
    Kept = After (listing files api) m (λ u m'. Extended name schema m m')

    -- The end of createTable, where t has the catalog of m with the new table.
    finished :
        (page : ℕ) (r : Tried (Unit {0})) (t : Manager files api)
        → (0 < length name) × (length name ≤ 0xffff)
        → IsCatalog m.next_table_id m.tables m.index
        → find_name name m.index ≡ none
        → t.next_table_id ≡ suc m.next_table_id
        → t.tables ≡ m.tables ++ (made_table m.next_table_id name schema page ∷ [])
        → t.index ≡ m.index
        → Kept (finish_create files api name m.next_table_id r t)
    unfolding finish_create
    finished page (failed c) t good cat new n ts ix =
        let back : pop_back t.tables ≡ m.tables =
          ap pop_back ts ∙ pop_back-append m.tables (made_table m.next_table_id name schema page) in
        rw (back, ix) refl
    finished page (done u) t good cat new n ts ix =
        let table = made_table m.next_table_id name schema page in
        let place : length (m.tables ++ (table ∷ [])) - 1 ≡ length m.tables =
          omega (arith, length-append m.tables (table ∷ [])) in
        record {
          page = page;
          named = good;
          tables = ts;
          next = n;
          catalog =
              rw (n, ts, ix, place)
                (IsCatalog-append table cat (All-map m.tables (λ t l e. omega arith) cat.below) new
                  (omega arith) (omega arith));
        }

    bind :
        {A : Type 0} (run : Exec (Manager files api) A) (s : Manager files api)
        → KeepsAt (listing files api) run s
        → listing files api s ≡ listing files api m
        → (k : A → Exec (Manager files api) (Unit {0}))
        → ((a : A) (t : Manager files api)
            → listing files api t ≡ listing files api m
            → run s ≡ (ok a, t)
            → Kept (k a t))
        → Kept ((run >>= k) s)
    bind run s keeps q k rest =
        After-bind (listing files api) m (λ u m'. Extended name schema m m') s run keeps q k rest

    -- createTable on a catalog whose next table id is not the last of 32 bits: when it succeeds, the
    -- name has from 1 to 65535 bytes, the table stands behind the others with the id that was next,
    -- the next id is one higher, and the catalog is one again; when it fails, at whatever call, the
    -- tables, the index and the next id are as before.
    pub create_table-Extended :
        IsCatalog m.next_table_id m.tables m.index
        → m.next_table_id + 1 < 2 ^ 32
        → After
            (listing files api)
            m
            (λ u m'. Extended name schema m m')
            (create_table files api name schema m)
    unfolding create_table
    create_table-Extended cat small =
        bind (lift (refuse (empty name) invalid_argument)) m refl refl _ λ u t p e.
          bind (lift (refuse (is_known (find_name name t.index)) already_exists)) t refl p _
            λ u1 t1 p1 e1.
              bind (lift (refuse (ltb 0xffff (length name)) invalid_argument)) t1 refl p1 _
                λ u2 t2 p2 e2.
                  bind (new_table_page files api) t2 (new_table_page_keeps t2) p2 _ λ page t3 p3 e3.
                    let new : find_name name m.index ≡ none = unknown_none _ (
                      subst (λ (l : Listing). is_known (find_name name l.2) ≡ false) p
                        (not_refused _ already_exists t t1 u1 e1)) in
                    let good : (0 < length name) × (length name ≤ 0xffff) = (
                      nonempty name (not_refused _ invalid_argument m t u e),
                      ltb→le _ _ (not_refused _ invalid_argument t1 t2 u2 e2),
                    ) in
                    let n : t3.next_table_id ≡ m.next_table_id = ap (λ (l : Listing). l.0) p3 in
                    let wrap : (m.next_table_id + 1) % u32_mod ≡ suc m.next_table_id =
                      omega arith in
                    let pushed : Manager files api = record t3 {
                      next_table_id = (t3.next_table_id + 1) % u32_mod;
                      tables = t3.tables ++ (made_table t3.next_table_id name schema page ∷ []);
                    } in
                    After-attempt (listing files api) m (λ u m'. Extended name schema m m') pushed
                      (save files api) (save_keeps files api pushed) _
                      λ r t4 p4. rw n (
                        finished page r t4 good cat new
                          (ap (λ (l : Listing). l.0) p4 ∙ ap (λ i. (i + 1) % u32_mod) n ∙ wrap)
                          (ap (λ (l : Listing). l.1) p4
                            ∙ ap (λ (l : Listing). l.1 ++ (made_table l.0 name schema page ∷ []))
                                p3)
                          (ap (λ (l : Listing). l.2) p4 ∙ ap (λ (l : Listing). l.2) p3))
