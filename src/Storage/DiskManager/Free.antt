-- ===== src/Storage/DiskManager/Free.antt =====
-- freePage, when it fails.
use relational_db_engine.Common.{
  ℕ, ◌≡◌, refl, subst, ◌∙◌, Bool, true, false, leb, ◌==◌, Bool-cases, inl, inr, if◌then◌else◌,
}
use relational_db_engine.Core.Status.{StatusCode, Result, ok, err, fault, invalid_argument}
use relational_db_engine.Core.Memory.{Bytes}
use relational_db_engine.Core.Helper.{read_uint16}
use relational_db_engine.Core.Exec.{Tried, done, failed, return, fail, attempt, lift, ◌>>=◌}
use relational_db_engine.Core.Exec.Cases.{attempt_cases}
use relational_db_engine.Storage.File.{FileApi}
use relational_db_engine.Storage.DiskManager.{
  Disk, check_page_id, refuse_free, free_header, free_page_bytes, disk_header_page_id,
  free_page_kind, free_page, read_page_at, write_page_at, write_header, ensure_open, rolled_back,
}
use relational_db_engine.Storage.DiskManager.Counters.{
  Same, RollsBack, Same-trans, header_landed, page_landed, read_page_at-Same, write_page_at-Same,
  ensure_open-Same, then_RollsBack,
}

module _ (api : FileApi) where
  -- The state after the page is put on the list: its counters, and those to go back to.
  abbrev Kept : Disk api → ℕ → ℕ → Disk api → Type 0
  Kept d first count s =
      (s.page_count ≡ d.page_count) × (first ≡ d.first_free_page_id) × (count ≡ d.free_page_count)

  rolled_back-RollsBack :
      (d s : Disk api) (c : StatusCode) (t : Tried (Unit {0}))
      → Same api d s
      → RollsBack api {A = Unit {0}} d (rolled_back api c t s)
  unfolding rolled_back
  rolled_back-RollsBack d s c (done u) p = p
  rolled_back-RollsBack d s c (failed e) p = p

  free_header-RollsBack :
      (d s : Disk api) (id : ℕ) (current : Bytes) (first count : ℕ) (t : Tried (Unit {0}))
      → Kept d first count s
      → RollsBack api d (free_header api id current first count t s)
  unfolding free_header
  free_header-RollsBack d s id current first count (done u) p = tt
  free_header-RollsBack d s id current first count (failed c) p =
      let back : Disk api = record s { first_free_page_id = first; free_page_count = count } in
      attempt_cases (RollsBack api d) (write_page_at api id current) back (rolled_back api c)
        (λ a t e.
          rolled_back-RollsBack d t c (done a)
            (Same-trans api d back t p (page_landed api _ _ back _ t e)))
        (λ x t e.
          rolled_back-RollsBack d t c (failed x)
            (Same-trans api d back t p (page_landed api _ _ back _ t e)))
        (λ t e. tt)

  Kept-Same :
      (d s t : Disk api) (first count : ℕ)
      → Kept d first count s
      → Same api s t
      → Kept d first count t
  Kept-Same d s t first count p q = (q.0 ∙ p.0, p.1, p.2)

  header_written :
      (d s : Disk api) (id : ℕ) (current : Bytes) (first count : ℕ)
      → Kept d first count s
      → RollsBack api d ((attempt (write_header api) >>= free_header api id current first count) s)
  header_written d s id current first count p =
      attempt_cases (RollsBack api d) (write_header api) s (free_header api id current first count)
        (λ a t e.
          free_header-RollsBack d t id current first count (done a)
            (Kept-Same d s t first count p (header_landed api s _ t e)))
        (λ c t e.
          free_header-RollsBack d t id current first count (failed c)
            (Kept-Same d s t first count p (header_landed api s _ t e)))
        (λ t e. tt)

  check_page_id-Same : (id : ℕ) (d : Disk api) → Same api d (check_page_id api id d).1
  unfolding check_page_id
  check_page_id-Same id d = elim (Bool-cases (id == disk_header_page_id)) [
    | inl header ↦ rw header (refl, refl, refl)
    | inr not_header ↦ elim (Bool-cases (leb d.page_count id)) [
      | inl past ↦ rw (not_header, past) (refl, refl, refl)
      | inr here ↦ rw (not_header, here) (refl, refl, refl)
    ]
  ]

  kind_refused :
      (b : Bool) (d : Disk api) → Same api d ((if b then fail invalid_argument else return tt) d).1
  kind_refused true d = (refl, refl, refl)
  kind_refused false d = (refl, refl, refl)

  refuse_free-Same : (page : Bytes) (d : Disk api) → Same api d (refuse_free api page d).1
  unfolding refuse_free
  refuse_free-Same page d = at_kind (read_uint16 page 4)
    where
      at_kind :
          (r : Result ℕ)
          → Same api d
              ((lift r >>= λ kind.
                  if kind == free_page_kind then fail invalid_argument else return tt)
                d).1
      at_kind (ok kind) = kind_refused (kind == free_page_kind) d
      at_kind (err c) = (refl, refl, refl)
      at_kind fault = (refl, refl, refl)

  lift-Same : {A : Type 0} (r : Result A) (d : Disk api) → Same api d (lift r d).1
  lift-Same r d = (refl, refl, refl)

  free_page-RollsBack : (d : Disk api) (id : ℕ) → RollsBack api d (free_page api id d)
  unfolding free_page
  free_page-RollsBack d id =
      then_RollsBack api d d (check_page_id api id) _ (refl, refl, refl) (check_page_id-Same id d)
        λ u s1 p1.
          then_RollsBack api d s1 (ensure_open api) _ p1 (ensure_open-Same api s1) λ u s2 p2.
            then_RollsBack api d s2 (read_page_at api id) _ p2 (read_page_at-Same api id s2)
              λ current s3 p3.
                then_RollsBack api d s3 (refuse_free api current) _ p3 (refuse_free-Same current s3)
                  λ u s4 p4.
                    then_RollsBack api d s4 (lift (free_page_bytes id s4.first_free_page_id)) _ p4
                      (refl, refl, refl)
                      λ freed s5 p5.
                        then_RollsBack api d s5 (write_page_at api id freed) _ p5
                          (write_page_at-Same api id freed s5)
                          λ u s6 p6. header_written d _ id current _ _ (p6.0, p4.1, p4.2)

  -- Whatever the file does: if freePage fails, the page count, the first free page and the free page
  -- count are as they were before the call.
  pub free_page-Same :
      (d e : Disk api) (id : ℕ) (c : StatusCode) → free_page api id d ≡ (err c, e) → Same api d e
  free_page-Same d e id c r = subst (RollsBack api d) r (free_page-RollsBack d id)
