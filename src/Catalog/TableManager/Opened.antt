-- ===== src/Catalog/TableManager/Opened.antt =====
-- open of a database whose metadata file is not there yet.
use relational_db_engine.Common.{
  ◌≡◌, ◌⊎◌, refl, ap, [], ◌∷◌, Bool, true, false, some, Bool-cases, inl, inr, ◌&&◌, replicate,
}
use relational_db_engine.Core.Status.{ok, err, io_error}
use relational_db_engine.Core.Memory.{Bytes, copy_in, poke, peek}
use relational_db_engine.Core.Helper.{read_uint32, write_uint32}
use relational_db_engine.Buffer.Disk.{DiskApi}
use relational_db_engine.Buffer.BufferPool.{Pool}
use relational_db_engine.Catalog.MetaReader.{
  deserialize, read_meta, check_magic, read_tables, nothing_loaded,
}
use relational_db_engine.Catalog.Cursor.{take_byte, take_uint32}
use relational_db_engine.Catalog.MetaFile.{MetaFileApi, IsFileStore}
use relational_db_engine.Catalog.TableManager.{
  initial_header, init_meta_file, new_manager, load, load_contents, init_if_absent, open_manager,
}

-- The file of a database without tables: "DTBL", the next table id 1, no tables, and four bytes.
abbrev pub no_tables : Bytes
no_tables = 68 ∷ 84 ∷ 66 ∷ 76 ∷ 1 ∷ 0 ∷ 0 ∷ 0 ∷ 0 ∷ 0 ∷ 0 ∷ 0 ∷ 0 ∷ 0 ∷ 0 ∷ 0 ∷ []

reads_no_tables : deserialize no_tables ≡ ok (1, nothing_loaded)
unfolding deserialize read_meta check_magic take_byte take_uint32 read_uint32 read_tables peek
reads_no_tables = refl

header : initial_header ≡ ok no_tables
unfolding initial_header copy_in replicate poke write_uint32
header = refl

module _ (files : MetaFileApi) (api : DiskApi) (w : files.World) (pool : Pool api) where
  -- The calls on the file, in the order of initMetaFile.
  abbrev pub parent_made : Bool × files.World
  parent_made = files.make_parent w

  abbrev pub file_created : Bool × files.World
  file_created = files.create_file parent_made.1

  abbrev pub file_written : Bool × files.World
  file_written = files.write_file no_tables file_created.1

  abbrev pub all_succeed : Bool
  all_succeed = parent_made.0 && file_created.0 && file_written.0 && files.can_open file_written.1

  -- Where the metadata file keeps what is written and is not there yet: open succeeds exactly when the
  -- parent path can be made, the file created, written and opened, and fails with IOError if not.
  -- When it succeeds, the file that was written is that of a database without tables, and the
  -- manager has no tables, and 1 as its next table id.
  pub open_manager-init_meta_file :
      IsFileStore files
      → files.exists w ≡ some false
      → ((all_succeed ≡ true)
          × (open_manager files api w pool ≡ (
            ok tt,
            record {
              world = file_written.1;
              pool = pool;
              next_table_id = 1;
              tables = [];
              index = [];
            },
          )))
        ⊎ ((all_succeed ≡ false) × ((open_manager files api w pool).0 ≡ err io_error))
  unfolding open_manager new_manager load init_if_absent init_meta_file load_contents
  open_manager-init_meta_file store absent = elim (Bool-cases parent_made.0) [
    | inr p ↦ inr (rw p refl, rw (absent, p) refl)
    | inl p ↦ elim (Bool-cases file_created.0) [
      | inr c ↦ inr (rw (p, c) refl, rw (absent, p, c) refl)
      | inl c ↦ elim (Bool-cases file_written.0) [
        | inr f ↦ inr (rw (p, c, f) refl, rw (absent, p, c, header, f) refl)
        | inl f ↦ elim (Bool-cases (files.can_open file_written.1)) [
          | inr o ↦ inr (rw (p, c, f, o) refl, rw (absent, p, c, header, f, o) refl)
          | inl o ↦
              let (there, holds) =
                store.kept file_created.1 file_written.1 no_tables
                  (ap (λ b. (b, file_written.1)) f) in
              inl
                (rw (p, c, f, o) refl, rw (absent, p, c, header, f, o, holds, reads_no_tables) refl)
        ]
      ]
    ]
  ]
