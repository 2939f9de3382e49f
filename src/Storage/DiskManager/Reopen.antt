-- ===== src/Storage/DiskManager/Reopen.antt =====
-- readHeader after writeHeader.
use relational_db_engine.Common.{
  ℕ, ◌^◌, ◌<◌, ◌≡◌, refl, ap, subst, sym, ◌∙◌, Bool, true, false, some, length, if◌then◌else◌,
}
use relational_db_engine.Core.Status.{ok, err, io_error}
use relational_db_engine.Core.Exec.{return, fail}
use relational_db_engine.Core.Memory.{Bytes, AreBytes}
use relational_db_engine.Storage.File.{FileApi}
use relational_db_engine.Storage.DiskManager.{
  Disk, write_header, read_header, write_page_at, read_page_at, on_file, page_or_fail,
}
use relational_db_engine.Storage.DiskManager.Header.{
  header, header_bytes-lem, length-header, same_magic-header, read_fields,
}

-- What is written can be read back.
abbrev pub ReadsBack : FileApi → Type 0
ReadsBack api =
    (o : ℕ) (b : Bytes) (w w' : api.World)
    → api.write_at o b w ≡ (true, w')
    → api.read_at o (length b) w' ≡ (some b, w')

module _ (api : FileApi) (law : ReadsBack api) (d : Disk api) (magic_size : length d.magic ≡ 4)
    (magic_bytes : AreBytes d.magic) (pages : d.page_count < 2 ^ 32)
    (first : d.first_free_page_id < 2 ^ 32) (free : d.free_page_count < 2 ^ 32) where
  page : Bytes
  page = header d.magic magic_size magic_bytes d.page_count d.first_free_page_id d.free_page_count

  read_back :
      (w : api.World) (a b c : ℕ)
      → api.read_at 0 4096 w ≡ (some page, w)
      → read_header api
          (record d { world = w; page_count = a; first_free_page_id = b; free_page_count = c })
        ≡ (ok tt, record d { world = w })
  unfolding read_header read_page_at on_file page_or_fail page
  read_back w a b c e =
      let fields =
        read_fields d.magic magic_size magic_bytes d.page_count d.first_free_page_id
          d.free_page_count pages first free in
      rw
        (
          e,
          same_magic-header d.magic magic_size magic_bytes d.page_count d.first_free_page_id
              d.free_page_count,
          fields.0,
          fields.1,
          fields.2,
        )
        refl

  written :
      (w : api.World)
      → api.write_at 0 page d.world ≡ (true, w)
      → api.read_at 0 4096 w ≡ (some page, w)
  unfolding page
  written w e =
      subst (λ n. api.read_at 0 n w ≡ (some page, w))
        (length-header d.magic magic_size magic_bytes d.page_count d.first_free_page_id
          d.free_page_count)
        (law 0 page d.world w e)

  after_write :
      (r : Bool × api.World) (e : Disk api) (a b c : ℕ)
      → api.write_at 0 page d.world ≡ r
      → (if r.0 then return tt else fail io_error) (record d { world = r.1 }) ≡ (ok tt, e)
      → read_header api (record e { page_count = a; first_free_page_id = b; free_page_count = c })
        ≡ (ok tt, e)
  after_write (false, w) e a b c h k = let no : err io_error ≡ ok tt = ap (λ run. run.0) k in cc
  after_write (true, w) e a b c h k =
      subst
        (λ (s : Disk api).
          read_header api (record s { page_count = a; first_free_page_id = b; free_page_count = c })
          ≡ (ok tt, s))
        (ap (λ run. run.1) k) (read_back w a b c (written w h))

  write_header-lem : write_header api d ≡ write_page_at api 0 page d
  unfolding write_header page
  write_header-lem =
      rw
        (header_bytes-lem d.magic magic_size magic_bytes d.page_count d.first_free_page_id
          d.free_page_count)
        refl

  -- Where the file returns what was written, and for four magic bytes and 32-bit counters: if
  -- writeHeader succeeds, then readHeader, whatever the three counters hold before it, succeeds and
  -- sets them to those that were written.
  pub read-write_header :
      (e : Disk api) (a b c : ℕ)
      → write_header api d ≡ (ok tt, e)
      → read_header api (record e { page_count = a; first_free_page_id = b; free_page_count = c })
        ≡ (ok tt, e)
  unfolding write_page_at on_file
  read-write_header e a b c h =
      after_write (api.write_at 0 page d.world) e a b c refl (sym write_header-lem ∙ h)
