-- ===== src/Storage/File.antt =====
-- What the storage uses of std::fstream and std::filesystem, as a parameter. A world is the state of
-- the file and of whatever makes its operations fail.
use relational_db_engine.Common.{ℕ, Bool, Option}
use relational_db_engine.Core.Memory.{Bytes}

pub record FileApi : Type 1 where
  pub World : Type 0
  -- std::filesystem::exists
  pub exists : World → Bool
  -- create_directories of the parent path, if there is one; false if it throws.
  pub make_parent : World → Bool × World
  -- Opening with trunc: a new file; false if it is not open afterwards.
  pub create_file : World → Bool × World
  -- Opening the file that is there; false if it is not open afterwards.
  pub open_file : World → Bool × World
  -- seekg and read of so many bytes at an offset; none if the stream fails.
  pub read_at : ℕ → ℕ → World → Option Bytes × World
  -- seekp, write and flush at an offset; false if the stream fails.
  pub write_at : ℕ → Bytes → World → Bool × World
