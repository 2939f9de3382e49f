-- ===== src/Storage/DiskManager/Counters.antt =====
-- Which calls keep the counters in the header.
use relational_db_engine.Common.{
  ℕ, ◌≡◌, refl, subst, ◌∙◌, Bool, true, false, Option, none, some, if◌then◌else◌,
}
use relational_db_engine.Core.Constants.{page_size_bytes}
use relational_db_engine.Core.Status.{Result, ok, err, fault, io_error}
use relational_db_engine.Core.Memory.{Bytes}
use relational_db_engine.Core.Exec.{Exec, return, fail, lift, ◌>>=◌}
use relational_db_engine.Core.Exec.Cases.{bind_cases}
use relational_db_engine.Storage.File.{FileApi}
use relational_db_engine.Storage.DiskManager.{
  Disk, page_file_offset, header_bytes, on_file, page_or_fail, read_page_at, write_page_at,
  write_header, ensure_open,
}

module _ (api : FileApi) where
  -- The counters agree.
  abbrev pub Same : Disk api → Disk api → Type 0
  Same d e =
      (e.page_count ≡ d.page_count)
      × (e.first_free_page_id ≡ d.first_free_page_id)
      × (e.free_page_count ≡ d.free_page_count)

  pub Same-trans : (d e f : Disk api) → Same d e → Same e f → Same d f
  Same-trans d e f p q = (q.0 ∙ p.0, q.1 ∙ p.1, q.2 ∙ p.2)

  -- If the run fails, the counters agree with those of d.
  abbrev pub RollsBack : {A : Type 0} → Disk api → Result A × Disk api → Type 0
  RollsBack d (ok a, e) = Unit {0}
  RollsBack d (err c, e) = Same d e
  RollsBack d (fault, e) = Unit {0}

  -- Reads and writes of pages do not touch the counters.
  on_file-Same :
      {A : Type 0} (call : api.World → A × api.World) (d : Disk api) → Same d (on_file api call d).1
  unfolding on_file
  on_file-Same call d = (refl, refl, refl)

  page_or_fail-Same : (page : Option Bytes) (d : Disk api) → Same d (page_or_fail api page d).1
  unfolding page_or_fail
  page_or_fail-Same none d = (refl, refl, refl)
  page_or_fail-Same (some page) d = (refl, refl, refl)

  pub read_page_at-Same : (id : ℕ) (d : Disk api) → Same d (read_page_at api id d).1
  unfolding read_page_at on_file
  read_page_at-Same id d =
      let (page, w) = api.read_at (page_file_offset id) page_size_bytes d.world in
      page_or_fail-Same page (record d { world = w })

  written_or_fail :
      (b : Bool) (d : Disk api) → Same d ((if b then return tt else fail io_error) d).1
  written_or_fail true d = (refl, refl, refl)
  written_or_fail false d = (refl, refl, refl)

  pub write_page_at-Same :
      (id : ℕ) (page : Bytes) (d : Disk api) → Same d (write_page_at api id page d).1
  unfolding write_page_at on_file
  write_page_at-Same id page d =
      let (b, w) = api.write_at (page_file_offset id) page d.world in
      written_or_fail b (record d { world = w })

  written_header :
      (r : Result Bytes) (d : Disk api)
      → Same d ((lift r >>= λ header. write_page_at api 0 header) d).1
  written_header (ok header) d = write_page_at-Same 0 header d
  written_header (err c) d = (refl, refl, refl)
  written_header fault d = (refl, refl, refl)

  pub write_header-Same : (d : Disk api) → Same d (write_header api d).1
  unfolding write_header
  write_header-Same d =
      written_header (header_bytes d.magic d.page_count d.first_free_page_id d.free_page_count) d

  pub header_landed :
      (s : Disk api) (r : Result (Unit {0})) (t : Disk api) → write_header api s ≡ (r, t) → Same s t
  header_landed s r t e = subst (λ run. Same s run.1) e (write_header-Same s)

  pub page_landed :
      (id : ℕ) (page : Bytes) (s : Disk api) (r : Result (Unit {0})) (t : Disk api)
      → write_page_at api id page s ≡ (r, t)
      → Same s t
  page_landed id page s r t e = subst (λ run. Same s run.1) e (write_page_at-Same id page s)

  pub read_landed :
      (id : ℕ) (s : Disk api) (r : Result Bytes) (t : Disk api)
      → read_page_at api id s ≡ (r, t)
      → Same s t
  read_landed id s r t e = subst (λ run. Same s run.1) e (read_page_at-Same id s)

  pub ensure_open-Same : (d : Disk api) → Same d (ensure_open api d).1
  unfolding ensure_open on_file
  ensure_open-Same d =
      let (b, w) = api.open_file d.world in written_or_fail b (record d { world = w })

  pub RollsBack-Same :
      {A : Type 0} (d s : Disk api) (run : Result A × Disk api)
      → Same d s
      → RollsBack s run
      → RollsBack d run
  RollsBack-Same d s (ok a, e) p r = tt
  RollsBack-Same d s (err c, e) p r = Same-trans d s e p r
  RollsBack-Same d s (fault, e) p r = tt

  -- A call that keeps the counters, then one that rolls back.
  pub then_RollsBack :
      {A B : Type 0} (d s : Disk api) (m : Exec (Disk api) A) (k : A → Exec (Disk api) B)
      → Same d s
      → Same s (m s).1
      → ((a : A) (t : Disk api) → Same d t → RollsBack d (k a t))
      → RollsBack d ((m >>= k) s)
  then_RollsBack {A = A} d s m k p q rest =
      bind_cases (RollsBack d) m s k (λ a t e. rest a t (Same-trans d s t p (kept (ok a) t e)))
        (λ c t e. Same-trans d s t p (kept (err c) t e)) (λ t e. tt)
    where
      kept : (r : Result A) (t : Disk api) → m s ≡ (r, t) → Same s t
      kept r t e = subst (λ run. Same s run.1) e q
