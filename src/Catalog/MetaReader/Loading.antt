-- ===== src/Catalog/MetaReader/Loading.antt =====
-- What load has checked when it succeeds, whatever the file holds.
use relational_db_engine.Common.{
  ℕ, zero, suc, ◌≤◌, ◌≡◌, refl, sym, subst, List, Bool, true, false, ◌||◌, leb, arith,
}
use relational_db_engine.Core.Status.{Result, ok, err, fault, refuse, corruption, StatusCode}
use relational_db_engine.Core.Memory.{Bytes}
use relational_db_engine.Core.Exec.Ensures.{
  Given, Ensures, Ensures-return, Ensures-bind, Ensures-any, Ensures-lift, Ensures-any_unit,
  Ensures-lift_unit,
}
use relational_db_engine.Record.Schema.{Column, Schema, create}
use relational_db_engine.Record.Schema.Valid.{create-AreColumns}
use relational_db_engine.Catalog.Cursor.{
  at_offset, skip, align, take_byte, take_uint16, take_uint32, take_bytes,
}
use relational_db_engine.Catalog.Metadata.{TableMetadata, tables_meta_magic}
use relational_db_engine.Catalog.Metadata.Index.{All, All-append, All-map, IsCatalog}
use relational_db_engine.Catalog.MetaReader.{
  or_corruption, bad_page_id, read_columns, read_table, check_magic, read_tables, Loaded, accept,
  read_meta, deserialize, nothing_loaded,
}
use relational_db_engine.Catalog.MetaReader.Stored.{IsSound}
use relational_db_engine.Catalog.MetaReader.Accept.{IsLoaded, nothing-IsLoaded, accept-IsLoaded}

not_refused : (b : Bool) (c : StatusCode) (u : Unit {0}) → refuse b c ≡ ok u → b ≡ false
not_refused true c u e = cc
not_refused false c u e = refl

corruption_ok : {A : Type 0} (r : Result A) (a : A) → or_corruption r ≡ ok a → r ≡ ok a
corruption_ok (ok b) a e = e
corruption_ok (err c) a e = cc
corruption_ok fault a e = cc

good_pages : (a b : Bool) → (a || b) ≡ false → (a ≡ false) × (b ≡ false)
good_pages true b e = cc
good_pages false b e = (refl, e)

-- A table that is read has a schema that create accepts, and page ids of pages.
read_table-IsSound : Ensures read_table IsSound
unfolding read_table
read_table-IsSound = Ensures-any take_uint32 _ λ id. Ensures-any take_uint32 _ λ first.
    Ensures-any take_uint32 _ λ last. Ensures-any take_byte _ λ count. Ensures-any_unit (skip 3) _ (
      Ensures-lift_unit _ _ λ good. Ensures-any take_uint16 _ λ length.
        Ensures-any (take_bytes length) _ λ name. Ensures-any_unit (align 4) _ (
          Ensures-any (read_columns count) _ λ columns. Ensures-lift _ _ λ schema made.
            Ensures-any_unit (align 8) _
              (Ensures-return _ (sound id first last name columns schema good made))))
  where
    sound :
        (id first last : ℕ) (name : Bytes) (columns : List Column) (schema : Schema)
        → refuse (bad_page_id first || bad_page_id last) corruption ≡ ok tt
        → or_corruption (create columns) ≡ ok schema
        → IsSound (record {
          table_id = id;
          name = name;
          schema = schema;
          first_page_id = first;
          last_page_id = last;
        })
    sound id first last name columns schema good made =
        let pages = good_pages _ _ (not_refused _ corruption tt good) in
        let (same, some, few, valid, distinct, one) =
          create-AreColumns columns schema (corruption_ok _ schema made) in
        record {
          first_good = pages.0;
          last_good = pages.1;
          some_columns = rw same some;
          few_columns = rw same few;
          columns = rw same valid;
          distinct = rw same distinct;
          one_key = rw same one;
        }

-- What the loop knows of the tables it has taken.
record Good (l : Loaded) : Type 0 where
  loaded : IsLoaded l
  sound : All IsSound l.tables

accept-Good :
    (l : Loaded) (meta : TableMetadata) (l' : Loaded)
    → Good l
    → IsSound meta
    → accept l meta ≡ ok l'
    → Good l'
accept-Good l meta l' g s e =
    let (loaded, tables) = accept-IsLoaded l l' meta g.loaded e in
    record {
      loaded = loaded;
      sound = subst (All IsSound) (sym tables) (All-append IsSound l.tables meta g.sound s);
    }

read_tables-Good : (n : ℕ) (l : Loaded) → Good l → Ensures (read_tables n l) Good
unfolding read_tables
read_tables-Good zero l g = Ensures-return l g
read_tables-Good (suc n) l g =
    Ensures-bind IsSound _ read_table-IsSound
      λ meta s. Ensures-lift _ _ λ l' e. read_tables-Good n l' (accept-Good l meta l' g s e)

-- A catalog whose tables are sound.
abbrev pub IsChecked : ℕ × Loaded → Type 0
IsChecked (next, l) = IsCatalog next l.tables l.index × All IsSound l.tables

later : (next m : ℕ) → leb next m ≡ false → suc m ≤ next
later next m e = ground arith

read_meta-IsChecked : Ensures read_meta IsChecked
unfolding read_meta
read_meta-IsChecked = Ensures-any_unit (check_magic tables_meta_magic) _ (
    Ensures-any take_uint32 _ λ next. Ensures-any take_uint32 _ λ count.
      Ensures-any_unit (skip 4) _ (
        Ensures-bind Good _
          (read_tables-Good count nothing_loaded (record { loaded = nothing-IsLoaded; sound = tt }))
          λ l g.
            Ensures-lift_unit _ _
              λ e. Ensures-return _ (checked next l g (not_refused _ corruption tt e))))
  where
    checked : (next : ℕ) (l : Loaded) → Good l → leb next l.max_id ≡ false → IsChecked (next, l)
    checked next l g e =
        let up : suc l.max_id ≤ next = later next l.max_id e in
        (
          record {
            ids = g.loaded.ids;
            names = g.loaded.names;
            below = All-map l.tables (λ t b. omega arith) g.loaded.below;
            places = g.loaded.places;
          },
          g.sound,
        )

-- Whatever bytes the file holds, if load takes them, then the table ids are distinct and below the
-- next table id, the names are distinct, the index gives the place of each name, and each table has
-- page ids of pages and a schema that create accepts.
pub deserialize-IsChecked :
    (bytes : Bytes) (next : ℕ) (l : Loaded)
    → deserialize bytes ≡ ok (next, l)
    → IsCatalog next l.tables l.index × All IsSound l.tables
unfolding deserialize
deserialize-IsChecked bytes next l e =
    subst (Given IsChecked) e (read_meta-IsChecked.given (at_offset bytes 0))
