-- ===== src/Buffer/Disk.antt =====
-- What the buffer pool uses of the disk manager.
use relational_db_engine.Common.{ℕ}
use relational_db_engine.Core.Memory.{Bytes}
use relational_db_engine.Core.Exec.{Exec}
use relational_db_engine.Storage.File.{FileApi}
use relational_db_engine.Storage.DiskManager

pub record DiskApi : Type 1 where
  pub State : Type 0
  pub allocate_page : Exec State ℕ
  pub read_page : ℕ → Exec State Bytes
  pub write_page : ℕ → Bytes → Exec State (Unit {0})

-- The disk manager over a file.
abbrev pub disk_manager : FileApi → DiskApi
disk_manager api = record {
  State = DiskManager.Disk api;
  allocate_page = DiskManager.allocate_page api;
  read_page = DiskManager.read_page api;
  write_page = DiskManager.write_page api;
}
