-- ===== src/Catalog/MetaFile.antt =====
-- What src/catalog/TableManager.cpp uses of std::ofstream, std::ifstream and std::filesystem for the
-- file that lists the tables, as a parameter. A world is the state of the file and of whatever makes
-- the operations fail.
use relational_db_engine.Common.{Bool, true, Option, some, ◌≡◌}
use relational_db_engine.Core.Memory.{Bytes}

pub record MetaFileApi : Type 1 where
  pub World : Type 0
  -- std::filesystem::exists; none if it gives an error code.
  pub exists : World → Option Bool
  -- create_directories of the parent path, if there is one; false if it gives an error code.
  pub make_parent : World → Bool × World
  -- A std::ofstream with trunc: an empty file; false if it is not open.
  pub create_file : World → Bool × World
  -- write of the bytes to that stream, which is then closed; false if the stream fails.
  pub write_file : Bytes → World → Bool × World
  -- A std::ifstream: false if it is not open.
  pub can_open : World → Bool
  -- The bytes of the vector of file_size bytes after read.
  pub contents : World → Bytes

-- What is documented of a file that was created and written: it exists and holds the bytes.
pub record IsFileStore (files : MetaFileApi) : Type 0 where
  pub kept :
      (w w' : files.World) (bytes : Bytes)
      → files.write_file bytes w ≡ (true, w')
      → (files.exists w' ≡ some true) × (files.contents w' ≡ bytes)
