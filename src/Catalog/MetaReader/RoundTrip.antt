-- ===== src/Catalog/MetaReader/RoundTrip.antt =====
-- load gets back what save wrote.
use mathlib.Core.List.{append_assoc, append-nil}
use relational_db_engine.Common.{
  ℕ, ◌+◌, ◌^◌, ◌%◌, ◌<◌, ◌≡◌, ◌≢◌, refl, sym, ap, ◌∙◌, subst, List, [], ◌∷◌, ◌++◌, length, leb,
  ◌==◌, arith,
}
use relational_db_engine.Core.Constants.{u32_mod}
use relational_db_engine.Core.Status.{ok, require, refuse, corruption, ◌>>=◌}
use relational_db_engine.Core.Memory.{Bytes, AreBytes}
use relational_db_engine.Core.Helper.LittleEndian.{le_bytes}
use relational_db_engine.Catalog.Cursor.{at_offset, take_uint32}
use relational_db_engine.Catalog.Cursor.Pieces.{const, Reads}
use relational_db_engine.Catalog.Cursor.Reading.{
  take_byte-Reads, take_uint32-Reads, skip-Reads, Reads-then, lift-Reads, Reads-last, Reads-nothing,
  Reads-then_unit, lift-Reads_unit,
}
use relational_db_engine.Catalog.Metadata.{TableMetadata, tables_meta_magic}
use relational_db_engine.Catalog.Metadata.Index.{All, AreDistinctBy, IsCatalog}
use relational_db_engine.Catalog.MetaWriter.{serialize}
use relational_db_engine.Catalog.MetaWriter.Pieces.{tables_piece, meta_piece}
use relational_db_engine.Catalog.MetaWriter.Written.{serialize_lem}
use relational_db_engine.Catalog.MetaReader.{
  Loaded, read_tables, check_magic, nothing_loaded, read_meta, deserialize,
}
use relational_db_engine.Catalog.MetaReader.Stored.{IsStorable}
use relational_db_engine.Catalog.MetaReader.Pieces.{table-Reads}
use relational_db_engine.Catalog.MetaReader.FileBytes.{meta-AreBytes}
use relational_db_engine.Catalog.MetaReader.Loading.{deserialize-IsChecked}
use relational_db_engine.Catalog.MetaReader.Accept.{
  IsLoaded, nothing-IsLoaded, extended, accept_new,
}

-- What the loop of load makes of a list of tables that it takes all.
abbrev taken : Loaded → List TableMetadata → Loaded
taken l [] = l
taken l (table ∷ tables) = taken (extended l table) tables

taken-tables :
    (l : Loaded) (tables : List TableMetadata) → (taken l tables).tables ≡ l.tables ++ tables
taken-tables l [] = sym (append-nil l.tables)
taken-tables l (table ∷ tables) =
    taken-tables (extended l table) tables ∙ append_assoc l.tables (table ∷ []) tables

taken-max_id :
    (next : ℕ) (l : Loaded) (tables : List TableMetadata)
    → l.max_id < next
    → All (λ t. t.table_id < next) tables
    → (taken l tables).max_id < next
taken-max_id next l [] h below = h
taken-max_id next l (table ∷ tables) h below =
    taken-max_id next (extended l table) tables (ground (arith, below.0)) below.1

-- Of distinct keys, those in front differ from that of a table behind them.
before :
    {K : Type 0} (key : TableMetadata → K) (front tables : List TableMetadata) (t : TableMetadata)
    → AreDistinctBy key (front ++ (t ∷ tables))
    → All (λ u. key u ≢ key t) front
before key [] tables t d = tt
before key (u ∷ front) tables t d = (differs front d.0, before key front tables t d.1)
  where
    differs :
        (ts : List TableMetadata) → All (λ v. key v ≢ key u) (ts ++ (t ∷ tables)) → key u ≢ key t
    differs [] a = λ e. a.0 (sym e)
    differs (v ∷ ts) a = differs ts a.1

tables-Reads :
    (tables : List TableMetadata) (l : Loaded)
    → IsLoaded l
    → AreDistinctBy (λ t. t.table_id) (l.tables ++ tables)
    → AreDistinctBy (λ t. t.name) (l.tables ++ tables)
    → All IsStorable tables
    → Reads (read_tables (length tables) l) (tables_piece tables) (taken l tables)
unfolding read_tables
tables-Reads [] l c ids names s = Reads-nothing l
tables-Reads (table ∷ tables) l c ids names s =
    let (takes, loaded) =
      accept_new l table c (before (λ t. t.table_id) l.tables tables table ids)
        (before (λ t. t.name) l.tables tables table names) in
    let moved : l.tables ++ (table ∷ tables) ≡ (l.tables ++ (table ∷ [])) ++ tables =
      sym (append_assoc l.tables (table ∷ []) tables) in
    Reads-then _ (table-Reads table s.0) (
      lift-Reads _ takes (
        tables-Reads tables (extended l table) loaded
          (subst (AreDistinctBy (λ t. t.table_id)) moved ids)
          (subst (AreDistinctBy (λ t. t.name)) moved names) s.1))

same_byte : (m : ℕ) → require (m == m) corruption ≡ ok tt
same_byte m = ground arith

magic-Reads : (magic : Bytes) → Reads (check_magic magic) (const magic) tt
unfolding check_magic
magic-Reads [] = Reads-nothing tt
magic-Reads (m ∷ magic) =
    Reads-then _ (take_byte-Reads m) (lift-Reads_unit (same_byte m) (magic-Reads magic))

high_enough : (next m : ℕ) → m < next → refuse (leb next m) corruption ≡ ok tt
high_enough next m h = ground arith

meta-Reads :
    (next : ℕ) (tables : List TableMetadata)
    → 0 < next
    → next < 2 ^ 32
    → length tables < 2 ^ 32
    → AreDistinctBy (λ t. t.table_id) tables
    → AreDistinctBy (λ t. t.name) tables
    → All (λ t. t.table_id < next) tables
    → All IsStorable tables
    → Reads read_meta (meta_piece next tables) (next, taken nothing_loaded tables)
unfolding read_meta
meta-Reads next tables pos small few ids names below s =
    let max : (taken nothing_loaded tables).max_id < next =
      taken-max_id next nothing_loaded tables pos below in
    Reads-then_unit (magic-Reads tables_meta_magic) (
      Reads-then _ (take_uint32-Reads next small) (
        Reads-then _ (count-Reads tables few) (
          Reads-then_unit (skip-Reads 4) (
            Reads-last _ (tables-Reads tables nothing_loaded nothing-IsLoaded ids names s)
              (λ c. let good = high_enough next _ max in rw good refl)))))
  where
    count-Reads :
        (tables : List TableMetadata)
        → length tables < 2 ^ 32
        → Reads take_uint32 (const (le_bytes 4 (length tables % u32_mod))) (length tables)
    count-Reads tables few =
        let e : length tables % u32_mod ≡ length tables = omega arith in
        rw e (take_uint32-Reads (length tables) few)

-- For a catalog of storable tables, fewer than 2^32 of them, with a positive next table id of 32
-- bits, save succeeds in filling its buffer, and load takes what is in it: it gets the same next
-- table id and the same tables in the same order, and an index of them.
pub deserialize-serialize :
    (next : ℕ) (tables : List TableMetadata) (index : List (Bytes × ℕ))
    → 0 < next
    → next < 2 ^ 32
    → length tables < 2 ^ 32
    → IsCatalog next tables index
    → All IsStorable tables
    → (l : Loaded) × ((serialize next tables >>= deserialize) ≡ ok (next, l))
      × (l.tables ≡ tables)
      × IsCatalog next l.tables l.index
unfolding deserialize
deserialize-serialize next tables index pos small few c s =
    let l = taken nothing_loaded tables in
    let file = meta_piece next tables 0 in
    let whole : file ++ [] ≡ file = append-nil file in
    let reads =
      (meta-Reads next tables pos small few c.ids c.names c.below s).run 0 [] [] refl
        (subst AreBytes (sym whole) (meta-AreBytes next tables s)) in
    let at : read_meta (at_offset file 0) ≡ (ok (next, l), at_offset file (0 + length file)) =
      subst (λ t. read_meta (at_offset t 0) ≡ (ok (next, l), at_offset t (0 + length file))) whole
        reads in
    let read : deserialize file ≡ ok (next, l) = ap (λ r. r.0) at in
    (
      l,
      rw (serialize_lem next tables) read,
      taken-tables nothing_loaded tables,
      (deserialize-IsChecked file next l read).0,
    )
