-- ===== src/Catalog/TableManager.antt =====
-- include/dandb/catalog/TableManager.h and src/catalog/TableManager.cpp: the state of a TableManager,
-- open, load, save and initMetaFile. The buffer pool is a reference in the source; here it is a part
-- of the state.
pub mod Tables
pub mod Persistence
pub mod Opened
pub mod Created
pub mod Rows
pub mod Reachable
use relational_db_engine.Common.{
  ℕ, ◌+◌, List, [], ◌∷◌, Bool, true, false, Option, none, some, replicate,
}
use relational_db_engine.Core.Status
use relational_db_engine.Core.Status.{Result, ok, require, io_error}
use relational_db_engine.Core.Memory.{Bytes, copy_in}
use relational_db_engine.Core.Helper.{write_uint32}
use relational_db_engine.Core.Exec.{Exec, return, fail, gets, lift, zoom, ◌>>=◌, ◌>>◌}
use relational_db_engine.Buffer.Disk.{DiskApi}
use relational_db_engine.Buffer.BufferPool.{Pool}
use relational_db_engine.Catalog.Metadata.{TableMetadata, tables_meta_magic}
use relational_db_engine.Catalog.MetaWriter.{serialize}
use relational_db_engine.Catalog.MetaReader.{Loaded, deserialize}
use relational_db_engine.Catalog.MetaFile.{MetaFileApi}

pub record TableManager (W P : Type 0) : Type 0 where
  pub world : W
  pub pool : P
  pub next_table_id : ℕ
  pub tables : List TableMetadata
  pub index : List (Bytes × ℕ)

abbrev pub tables_meta_header_size : ℕ
tables_meta_header_size = 16

-- The bytes that initMetaFile writes.
unfoldable pub initial_header : Result Bytes
initial_header =
    Status.◌>>=◌ (copy_in (replicate tables_meta_header_size 0) 0 tables_meta_magic)
      λ h1. Status.◌>>=◌ (write_uint32 h1 4 1) λ h2. write_uint32 h2 (4 + 4) 0

unfoldable pub new_manager : {W P : Type 0} → W → P → TableManager W P
new_manager world pool = record {
  world = world;
  pool = pool;
  next_table_id = 1;
  tables = [];
  index = [];
}

module _ (files : MetaFileApi) (api : DiskApi) where
  open files use {World, exists, make_parent, create_file, write_file, can_open, contents}

  abbrev pub Manager : Type 0
  Manager = TableManager World (Pool api)

  abbrev pub on_pool : {A : Type 0} → Exec (Pool api) A → Exec Manager A
  on_pool = zoom (λ m. m.pool) (λ p m. record m { pool = p })

  -- One call of the file interface that may fail: its status is IOError then.
  abbrev pub on_file : (World → Bool × World) → Exec Manager (Unit {0})
  on_file f m = (require (f m.world).0 io_error, record m { world = (f m.world).1 })

  unfoldable pub save : Exec Manager (Unit {0})
  save = do
    on_file create_file
    next_table_id ← gets (λ m. m.next_table_id)
    tables ← gets (λ m. m.tables)
    bytes ← lift (serialize next_table_id tables)
    on_file (write_file bytes)

  unfoldable pub init_meta_file : Exec Manager (Unit {0})
  init_meta_file = do
    on_file make_parent
    on_file create_file
    header ← lift initial_header
    on_file (write_file header)

  init_if_absent : Option Bool → Exec Manager (Unit {0})
  unfolding init_meta_file
  init_if_absent none = fail io_error
  init_if_absent (some false) = init_meta_file
  init_if_absent (some true) = return tt

  -- nextTableId_, tablesMetadata_ and tableNameToMetadataIndex_ are assigned.
  abbrev pub adopt : ℕ × Loaded → Exec Manager (Unit {0})
  adopt (next, l) m = (ok tt, record m { next_table_id = next; tables = l.tables; index = l.index })

  -- The part of load that reads the file.
  unfoldable pub load_contents : Exec Manager (Unit {0})
  load_contents = do
    opened ← gets (λ m. can_open m.world)
    lift (require opened io_error)
    bytes ← gets (λ m. contents m.world)
    loaded ← lift (deserialize bytes)
    adopt loaded

  unfoldable pub load : Exec Manager (Unit {0})
  unfolding init_if_absent load_contents
  load = do present ← gets (λ m. exists m.world); init_if_absent present; load_contents

  -- TableManager::open
  unfoldable pub open_manager : World → Pool api → Result (Unit {0}) × Manager
  unfolding new_manager load
  open_manager world pool = load (new_manager world pool)
