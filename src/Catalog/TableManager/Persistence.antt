-- ===== src/Catalog/TableManager/Persistence.antt =====
-- save and load of a manager.
use relational_db_engine.Common.{
  ℕ, ◌^◌, ◌<◌, ◌≡◌, refl, ap, ◌∙◌, List, true, some, length, Bool-cases, inl, inr,
}
use relational_db_engine.Core.Status.{ok, err, io_error}
use relational_db_engine.Core.Memory.{Bytes}
use relational_db_engine.Core.Exec.{lift}
use relational_db_engine.Core.Exec.Keeping.{KeepsAt, KeepsAt-bind}
use relational_db_engine.Buffer.Disk.{DiskApi}
use relational_db_engine.Buffer.BufferPool.{Pool}
use relational_db_engine.Catalog.Metadata.{TableMetadata}
use relational_db_engine.Catalog.Metadata.Index.{All, IsCatalog}
use relational_db_engine.Catalog.MetaWriter.{serialize}
use relational_db_engine.Catalog.MetaWriter.Pieces.{meta_piece}
use relational_db_engine.Catalog.MetaWriter.Written.{serialize_lem}
use relational_db_engine.Catalog.MetaReader.{Loaded, deserialize}
use relational_db_engine.Catalog.MetaReader.Stored.{IsStorable}
use relational_db_engine.Catalog.MetaReader.RoundTrip.{deserialize-serialize}
use relational_db_engine.Catalog.MetaFile.{MetaFileApi, IsFileStore}
use relational_db_engine.Catalog.TableManager.{
  Manager, new_manager, on_file, save, init_if_absent, load_contents, load, open_manager,
}

-- The catalog of a manager.
abbrev pub Listing : Type 0
Listing = ℕ × List TableMetadata × List (Bytes × ℕ)

module _ (files : MetaFileApi) (api : DiskApi) where
  abbrev pub listing : Manager files api → Listing
  listing m = (m.next_table_id, m.tables, m.index)

  -- save changes no field of the manager, whatever fails.
  pub save_keeps : (m : Manager files api) → KeepsAt listing (save files api) m
  unfolding save
  save_keeps m = KeepsAt-bind listing m (on_file files api files.create_file) refl _ λ _ t q e.
      KeepsAt-bind listing t (lift (serialize t.next_table_id t.tables)) refl _
        λ bytes t' q' e'. refl

  -- After save has succeeded the file was last written with the pieces of the catalog.
  save_written :
      (m m' : Manager files api)
      → save files api m ≡ (ok tt, m')
      → (w : files.World) × (files.write_file (meta_piece m.next_table_id m.tables 0) w
          ≡ (true, m'.world))
  unfolding save
  save_written m m' e =
      let file = meta_piece m.next_table_id m.tables 0 in
      let w = (files.create_file m.world).1 in
      elim (Bool-cases (files.create_file m.world).0) [
        | inl created ↦
            let at = rw (created, serialize_lem m.next_table_id m.tables) at e in
            elim (Bool-cases (files.write_file file w).0) [
              | inl written ↦
                  let same : (files.write_file file w).1 ≡ m'.world = ap (λ r. r.1.world) at in
                  (w, ap (λ b. (b, (files.write_file file w).1)) written ∙ ap (λ v. (true, v)) same)
              | inr failed ↦ let no : err io_error ≡ ok tt = rw failed at (ap (λ r. r.0) at) in cc
            ]
        | inr failed ↦ let no : err io_error ≡ ok tt = rw failed at (ap (λ r. r.0) e) in cc
      ]

  -- A file that is there and can be opened, and whose bytes load takes, gives the manager its
  -- catalog.
  load_from :
      (m : Manager files api) (next : ℕ) (l : Loaded)
      → files.exists m.world ≡ some true
      → files.can_open m.world ≡ true
      → deserialize (files.contents m.world) ≡ ok (next, l)
      → load files api m
        ≡ (ok tt, record m { next_table_id = next; tables = l.tables; index = l.index })
  unfolding load init_if_absent load_contents
  load_from m next l there opens bytes = rw (there, opens, bytes) refl

  -- When save succeeds for a catalog of fewer than 2^32 storable tables, then open of the file that
  -- was saved, if it can be opened, succeeds: the new manager has the same next table id and the same
  -- tables in the same order, and an index of them.
  pub open_manager-save :
      (store : IsFileStore files) (m m' : Manager files api) (pool : Pool api)
      → 0 < m.next_table_id
      → m.next_table_id < 2 ^ 32
      → length m.tables < 2 ^ 32
      → IsCatalog m.next_table_id m.tables m.index
      → All IsStorable m.tables
      → save files api m ≡ (ok tt, m')
      → files.can_open m'.world ≡ true
      → (index : List (Bytes × ℕ)) × (open_manager files api m'.world pool ≡ (
        ok tt,
        record {
          world = m'.world;
          pool = pool;
          next_table_id = m.next_table_id;
          tables = m.tables;
          index = index;
        },
      ))
        × IsCatalog m.next_table_id m.tables index
  unfolding open_manager new_manager
  open_manager-save store m m' pool pos small few c s e opens =
      let file = meta_piece m.next_table_id m.tables 0 in
      let (w, written) = save_written m m' e in
      let (there, holds) = store.kept w m'.world file written in
      let (l, read, same, indexed) =
        deserialize-serialize m.next_table_id m.tables m.index pos small few c s in
      let bytes : deserialize (files.contents m'.world) ≡ ok (m.next_table_id, l) =
        rw (holds) (rw (serialize_lem m.next_table_id m.tables) at read) in
      (
        l.index,
        load_from (new_manager m'.world pool) m.next_table_id l there opens bytes ∙ rw same refl,
        rw same at indexed,
      )
