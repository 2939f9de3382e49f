-- ===== src/Storage/DiskManager.antt =====
-- src/storage/DiskManager.cpp. The checks that an open stream is open are left out: every caller has
-- made them.
pub mod Header
pub mod Reopen
pub mod Counters
pub mod Allocate
pub mod Free
use relational_db_engine.Common.{
  ℕ, ◌+◌, ◌-◌, ◌*◌, ◌%◌, Bool, true, false, Option, none, some, [], ◌∷◌, replicate, get_or, ltb,
  leb, ◌==◌, if◌then◌else◌,
}
use relational_db_engine.Core.Constants.{u32_mod, page_size_bytes, invalid_page_id}
use relational_db_engine.Core.Status
use relational_db_engine.Core.Status.{
  Result, ok, err, fault, StatusCode, invalid_argument, io_error, corruption, internal,
}
use relational_db_engine.Core.Memory.{Bytes, copy_in}
use relational_db_engine.Core.Helper.{write_uint32, read_uint32, write_uint16, read_uint16}
use relational_db_engine.Core.Exec.{
  Exec, Tried, done, failed, return, fail, gets, lift, attempt, modify, ◌>>=◌, ◌>>◌,
}
use relational_db_engine.Storage.File.{FileApi}

abbrev pub disk_header_page_id : ℕ
disk_header_page_id = 0

abbrev pub initial_page_count : ℕ
initial_page_count = 1

abbrev pub free_page_kind : ℕ
free_page_kind = 0xffff

abbrev pub page_file_offset : ℕ → ℕ
page_file_offset page_id = page_id * page_size_bytes

pub record DiskManager (World : Type 0) : Type 0 where
  pub magic : Bytes
  pub page_count : ℕ
  pub first_free_page_id : ℕ
  pub free_page_count : ℕ
  pub world : World

-- The bytes of the header page.
unfoldable pub header_bytes : Bytes → ℕ → ℕ → ℕ → Result Bytes
header_bytes magic page_count first_free free_count =
    Status.◌>>=◌ (copy_in (replicate page_size_bytes 0) 0 magic) λ h1.
      Status.◌>>=◌ (write_uint32 h1 4 page_size_bytes) λ h2.
        Status.◌>>=◌ (write_uint32 h2 8 page_count)
          λ h3. Status.◌>>=◌ (write_uint32 h3 12 first_free) λ h4. write_uint32 h4 16 free_count

-- The loop over the magic bytes: header[i] != magic[i].
abbrev pub same_magic : Bytes → Bytes → ℕ → Bool
same_magic header [] i = true
same_magic header (m ∷ magic) i =
    let rest = same_magic header magic (i + 1) in if get_or header i 0 == m then rest else false

-- A page that is free: its kind, and the next free page.
unfoldable pub free_page_bytes : ℕ → ℕ → Result Bytes
free_page_bytes page_id next =
    Status.◌>>=◌ (write_uint32 (replicate page_size_bytes 0) 0 page_id)
      λ p1. Status.◌>>=◌ (write_uint16 p1 4 free_page_kind) λ p2. write_uint32 p2 8 next

module _ (api : FileApi) where
  open api use {World, exists, make_parent, create_file, open_file, read_at, write_at}

  abbrev pub Disk : Type 0
  Disk = DiskManager World

  -- One call of the file interface.
  on_file : {A : Type 0} → (World → A × World) → Exec Disk A
  on_file call d = let (a, w) = call d.world in (ok a, record d { world = w })

  -- fstream file(...); if(!file.is_open()) return IOError
  unfoldable pub ensure_open : Exec Disk (Unit {0})
  unfolding on_file
  ensure_open = do opened ← on_file open_file; if opened then return tt else fail io_error

  page_or_fail : Option Bytes → Exec Disk Bytes
  page_or_fail none = fail io_error
  page_or_fail (some page) = return page

  -- readPage(file, pageId, out)
  unfoldable pub read_page_at : ℕ → Exec Disk Bytes
  unfolding on_file page_or_fail
  read_page_at page_id = do
    page ← on_file (read_at (page_file_offset page_id) page_size_bytes)
    page_or_fail page

  -- writePage(file, pageId, data)
  unfoldable pub write_page_at : ℕ → Bytes → Exec Disk (Unit {0})
  unfolding on_file
  write_page_at page_id page = do
    written ← on_file (write_at (page_file_offset page_id) page)
    if written then return tt else fail io_error

  unfoldable pub write_header : Exec Disk (Unit {0})
  unfolding write_page_at
  write_header d =
      (do
        header ← lift (header_bytes d.magic d.page_count d.first_free_page_id d.free_page_count)
        write_page_at disk_header_page_id header)
        d

  unfoldable pub read_header : Exec Disk (Unit {0})
  unfolding read_page_at
  read_header = do
    header ← read_page_at disk_header_page_id
    magic ← gets (λ d. d.magic)
    if same_magic header magic 0 then return tt else fail corruption
    page_count ← lift (read_uint32 header 8)
    modify (λ d. record d { page_count = page_count })
    first_free ← lift (read_uint32 header 12)
    modify (λ d. record d { first_free_page_id = first_free })
    free_count ← lift (read_uint32 header 16)
    modify (λ d. record d { free_page_count = free_count })

  -- Undo of a reuse: freePageCount_++, firstFreePageId_ = pageId.
  abbrev give_back : ℕ → Disk → Disk
  give_back page_id d = record d {
    free_page_count = (d.free_page_count + 1) % u32_mod;
    first_free_page_id = page_id;
  }

  rolled_back : {A : Type 0} → StatusCode → Tried (Unit {0}) → Exec Disk A
  rolled_back c (done u) = fail c
  rolled_back c (failed e) = fail io_error

  reuse_header : ℕ → Bytes → Tried (Unit {0}) → Exec Disk ℕ
  unfolding rolled_back write_page_at
  reuse_header page_id current (done u) = return page_id
  reuse_header page_id current (failed c) = do
    modify (give_back page_id)
    rollback ← attempt (write_page_at page_id current)
    rolled_back c rollback

  reuse_write : ℕ → Bytes → Tried (Unit {0}) → Exec Disk ℕ
  unfolding reuse_header write_header
  reuse_write page_id current (failed c) = do modify (give_back page_id); fail c
  reuse_write page_id current (done u) = do
    header ← attempt write_header
    reuse_header page_id current header

  reuse_read : ℕ → Tried Bytes → Exec Disk ℕ
  unfolding reuse_write
  reuse_read page_id (failed c) = do
    modify (λ d. record d { free_page_count = (d.free_page_count + 1) % u32_mod })
    fail c
  reuse_read page_id (done current) = do
    next ← lift (read_uint32 current 8)
    modify (λ d. record d { first_free_page_id = next })
    written ← attempt (write_page_at page_id (replicate page_size_bytes 0))
    reuse_write page_id current written

  -- The branch of allocatePage that takes the first free page.
  reuse_page : ℕ → Exec Disk ℕ
  unfolding reuse_read
  reuse_page page_id = do
    modify (λ d. record d { free_page_count = d.free_page_count - 1 })
    current ← attempt (read_page_at page_id)
    reuse_read page_id current

  abbrev shrink : Disk → Disk
  shrink d = record d { page_count = (d.page_count + u32_mod - 1) % u32_mod }

  or_shrink : ℕ → Tried (Unit {0}) → Exec Disk ℕ
  or_shrink page_id (done u) = return page_id
  or_shrink page_id (failed c) = do modify shrink; fail c

  extend_write : ℕ → Tried (Unit {0}) → Exec Disk ℕ
  unfolding or_shrink write_header
  extend_write page_id (failed c) = do modify shrink; fail c
  extend_write page_id (done u) = do header ← attempt write_header; or_shrink page_id header

  -- The branch that adds a page to the end of the file.
  extend_file : ℕ → Exec Disk ℕ
  unfolding extend_write write_page_at
  extend_file page_id = do
    modify (λ d. record d { page_count = (d.page_count + 1) % u32_mod })
    written ← attempt (write_page_at page_id (replicate page_size_bytes 0))
    extend_write page_id written

  choose_page : Exec Disk ℕ
  unfolding reuse_page extend_file
  choose_page d =
      if ltb 0 d.free_page_count
      then reuse_page d.first_free_page_id d
      else if d.page_count == invalid_page_id
      then (err internal, d)
      else extend_file d.page_count d

  unfoldable pub allocate_page : Exec Disk ℕ
  unfolding ensure_open choose_page
  allocate_page = do ensure_open; choose_page

  -- The first two checks of freePage, readPage and writePage.
  unfoldable pub check_page_id : ℕ → Exec Disk (Unit {0})
  check_page_id page_id d =
      if page_id == disk_header_page_id
      then (err invalid_argument, d)
      else if leb d.page_count page_id
      then (err invalid_argument, d)
      else (ok tt, d)

  unfoldable pub refuse_free : Bytes → Exec Disk (Unit {0})
  refuse_free page = do
    kind ← lift (read_uint16 page 4)
    if kind == free_page_kind then fail invalid_argument else return tt

  free_header : ℕ → Bytes → ℕ → ℕ → Tried (Unit {0}) → Exec Disk (Unit {0})
  unfolding rolled_back write_page_at
  free_header page_id current first count (done u) = return tt
  free_header page_id current first count (failed c) = do
    modify (λ d. record d { first_free_page_id = first; free_page_count = count })
    rollback ← attempt (write_page_at page_id current)
    rolled_back c rollback

  unfoldable pub free_page : ℕ → Exec Disk (Unit {0})
  unfolding check_page_id ensure_open read_page_at refuse_free write_page_at write_header
      free_header
  free_page page_id = do
    check_page_id page_id
    ensure_open
    current ← read_page_at page_id
    refuse_free current
    first ← gets (λ d. d.first_free_page_id)
    count ← gets (λ d. d.free_page_count)
    freed ← lift (free_page_bytes page_id first)
    write_page_at page_id freed
    modify (λ d. record d {
      first_free_page_id = page_id;
      free_page_count = (d.free_page_count + 1) % u32_mod;
    })
    header ← attempt write_header
    free_header page_id current first count header

  unfoldable pub read_page : ℕ → Exec Disk Bytes
  unfolding check_page_id ensure_open read_page_at
  read_page page_id = do check_page_id page_id; ensure_open; read_page_at page_id

  current_or_fail : Tried Bytes → Exec Disk Bytes
  current_or_fail (done page) = return page
  current_or_fail (failed c) = fail io_error

  unfoldable pub write_page : ℕ → Bytes → Exec Disk (Unit {0})
  unfolding check_page_id ensure_open read_page_at current_or_fail refuse_free write_page_at
  write_page page_id page = do
    check_page_id page_id
    ensure_open
    read ← attempt (read_page_at page_id)
    current ← current_or_fail read
    refuse_free current
    write_page_at page_id page

  create_disk : Exec Disk (Unit {0})
  unfolding on_file write_header
  create_disk = do
    made ← on_file make_parent
    if made then return tt else fail io_error
    opened ← on_file create_file
    if opened then return tt else fail io_error
    write_header

  open_disk : Exec Disk (Unit {0})
  unfolding ensure_open read_header
  open_disk = do ensure_open; read_header

  -- The constructor, on a file that is there or not. A failure is the exception that it throws;
  -- the members that readHeader sets start as 0.
  unfoldable pub construct : Bytes → World → Result (Unit {0}) × Disk
  unfolding create_disk open_disk
  construct magic w =
      if exists w
      then open_disk (record {
        magic = magic;
        page_count = 0;
        first_free_page_id = 0;
        free_page_count = 0;
        world = w;
      })
      else create_disk (record {
        magic = magic;
        page_count = initial_page_count;
        first_free_page_id = invalid_page_id;
        free_page_count = 0;
        world = w;
      })
