-- ===== src/Storage/DiskManager/Allocate.antt =====
-- allocatePage, when it fails.
use relational_db_engine.Common.{
  ℕ, ◌+◌, ◌-◌, ◌%◌, ◌<◌, ◌≡◌, refl, subst, ◌∙◌, false, arith, ltb, ◌==◌, ltb→lt, Bool-cases, inl,
  inr, replicate,
}
use relational_db_engine.Core.Constants.{u32_mod, invalid_page_id, page_size_bytes}
use relational_db_engine.Core.Status.{StatusCode, Result, ok, err, fault}
use relational_db_engine.Core.Memory.{Bytes}
use relational_db_engine.Core.Helper.{read_uint32}
use relational_db_engine.Core.Helper.Faults.{IsNoError, read_uint32-IsNoError}
use relational_db_engine.Core.Exec.{Exec, Tried, done, failed, attempt, lift, ◌>>=◌}
use relational_db_engine.Core.Exec.Cases.{attempt_cases}
use relational_db_engine.Storage.File.{FileApi}
use relational_db_engine.Storage.DiskManager.{
  Disk, shrink, give_back, allocate_page, read_page_at, write_page_at, write_header, ensure_open,
  or_shrink, extend_write, extend_file, reuse_page, reuse_read, reuse_write, reuse_header,
  rolled_back, choose_page,
}
use relational_db_engine.Storage.DiskManager.Counters.{
  Same, RollsBack, Same-trans, header_landed, page_landed, read_landed, ensure_open-Same,
  RollsBack-Same, then_RollsBack,
}

module _ (api : FileApi) where
  -- A state in which the file has grown by a page.
  abbrev Extended : Disk api → Disk api → Type 0
  Extended d s =
      (s.page_count ≡ d.page_count + 1)
      × (s.first_free_page_id ≡ d.first_free_page_id)
      × (s.free_page_count ≡ d.free_page_count)

  Extended-Same : (d s t : Disk api) → Extended d s → Same api s t → Extended d t
  Extended-Same d s t p q = (q.0 ∙ p.0, q.1 ∙ p.1, q.2 ∙ p.2)

  shrink-Same :
      (d s : Disk api) → d.page_count + 1 < u32_mod → Extended d s → Same api d (shrink api s)
  shrink-Same d s h p = (omega (arith, p.0), p.1, p.2)

  or_shrink-RollsBack :
      (d s : Disk api) (id : ℕ) (t : Tried (Unit {0}))
      → d.page_count + 1 < u32_mod
      → Extended d s
      → RollsBack api d (or_shrink api id t s)
  unfolding or_shrink
  or_shrink-RollsBack d s id (done u) h p = tt
  or_shrink-RollsBack d s id (failed c) h p = shrink-Same d s h p

  extend_write-RollsBack :
      (d s : Disk api) (id : ℕ) (t : Tried (Unit {0}))
      → d.page_count + 1 < u32_mod
      → Extended d s
      → RollsBack api d (extend_write api id t s)
  unfolding extend_write
  extend_write-RollsBack d s id (failed c) h p = shrink-Same d s h p
  extend_write-RollsBack d s id (done u) h p =
      attempt_cases (RollsBack api d) (write_header api) s (or_shrink api id)
        (λ a s' e.
          or_shrink-RollsBack d s' id (done a) h
            (Extended-Same d s s' p (header_landed api s _ s' e)))
        (λ c s' e.
          or_shrink-RollsBack d s' id (failed c) h
            (Extended-Same d s s' p (header_landed api s _ s' e)))
        (λ s' e. tt)

  extend_file-RollsBack :
      (d : Disk api) (id : ℕ) → d.page_count + 1 < u32_mod → RollsBack api d (extend_file api id d)
  unfolding extend_file
  extend_file-RollsBack d id h =
      let grown : Disk api = record d { page_count = (d.page_count + 1) % u32_mod } in
      let page : Bytes = replicate page_size_bytes 0 in
      let start : Extended d grown = (omega arith, refl, refl) in
      attempt_cases (RollsBack api d) (write_page_at api id page) grown (extend_write api id)
        (λ a s' e.
          extend_write-RollsBack d s' id (done a) h
            (Extended-Same d grown s' start (page_landed api id page grown _ s' e)))
        (λ c s' e.
          extend_write-RollsBack d s' id (failed c) h
            (Extended-Same d grown s' start (page_landed api id page grown _ s' e)))
        (λ s' e. tt)

  -- A state in which a free page has been taken off the count.
  abbrev Taken : Disk api → Disk api → Type 0
  Taken d s =
      (s.page_count ≡ d.page_count)
      × (s.free_page_count + 1 ≡ d.free_page_count)
      × (d.free_page_count < u32_mod)

  Taken-Same : (d s t : Disk api) → Taken d s → Same api s t → Taken d t
  Taken-Same d s t p q = (q.0 ∙ p.0, omega (arith, q.2, p.1), p.2)

  give_back-Same : (d s : Disk api) → Taken d s → Same api d (give_back api d.first_free_page_id s)
  give_back-Same d s p = (p.0, refl, omega (arith, p.1, p.2))

  rolled_back-RollsBack :
      (d s : Disk api) (c : StatusCode) (t : Tried (Unit {0}))
      → Same api d s
      → RollsBack api {A = ℕ} d (rolled_back api c t s)
  unfolding rolled_back
  rolled_back-RollsBack d s c (done u) p = p
  rolled_back-RollsBack d s c (failed e) p = p

  reuse_header-RollsBack :
      (d s : Disk api) (current : Bytes) (t : Tried (Unit {0}))
      → Taken d s
      → RollsBack api d (reuse_header api d.first_free_page_id current t s)
  unfolding reuse_header
  reuse_header-RollsBack d s current (done u) p = tt
  reuse_header-RollsBack d s current (failed c) p =
      let back : Disk api = give_back api d.first_free_page_id s in
      let given = give_back-Same d s p in
      attempt_cases (RollsBack api d) (write_page_at api d.first_free_page_id current) back
        (rolled_back api c)
        (λ a t e.
          rolled_back-RollsBack d t c (done a)
            (Same-trans api d back t given (page_landed api _ _ back _ t e)))
        (λ x t e.
          rolled_back-RollsBack d t c (failed x)
            (Same-trans api d back t given (page_landed api _ _ back _ t e)))
        (λ t e. tt)

  reuse_write-RollsBack :
      (d s : Disk api) (current : Bytes) (t : Tried (Unit {0}))
      → Taken d s
      → RollsBack api d (reuse_write api d.first_free_page_id current t s)
  unfolding reuse_write
  reuse_write-RollsBack d s current (failed c) p = give_back-Same d s p
  reuse_write-RollsBack d s current (done u) p =
      attempt_cases (RollsBack api d) (write_header api) s
        (reuse_header api d.first_free_page_id current)
        (λ a t e.
          reuse_header-RollsBack d t current (done a)
            (Taken-Same d s t p (header_landed api s _ t e)))
        (λ c t e.
          reuse_header-RollsBack d t current (failed c)
            (Taken-Same d s t p (header_landed api s _ t e)))
        (λ t e. tt)

  -- What reuse_read does with the next free page.
  next_known : ℕ → Bytes → ℕ → Exec (Disk api) ℕ
  next_known id current next s =
      (attempt (write_page_at api id (replicate page_size_bytes 0)) >>= reuse_write api id current)
        (record s { first_free_page_id = next })

  next_known-RollsBack :
      (d s : Disk api) (current : Bytes) (r : Result ℕ)
      → IsNoError r
      → Taken d s
      → RollsBack api d ((lift r >>= next_known d.first_free_page_id current) s)
  unfolding next_known
  next_known-RollsBack d s current fault h p = tt
  next_known-RollsBack d s current (err c) h p = elim h [ ]
  next_known-RollsBack d s current (ok next) h p =
      let moved : Disk api = record s { first_free_page_id = next } in
      attempt_cases (RollsBack api d)
        (write_page_at api d.first_free_page_id (replicate page_size_bytes 0)) moved
        (reuse_write api d.first_free_page_id current)
        (λ a t e.
          reuse_write-RollsBack d t current (done a)
            (Taken-Same d moved t p (page_landed api _ _ moved _ t e)))
        (λ c t e.
          reuse_write-RollsBack d t current (failed c)
            (Taken-Same d moved t p (page_landed api _ _ moved _ t e)))
        (λ t e. tt)

  reuse_read-RollsBack :
      (d s : Disk api) (t : Tried Bytes)
      → Taken d s
      → s.first_free_page_id ≡ d.first_free_page_id
      → RollsBack api d (reuse_read api d.first_free_page_id t s)
  unfolding reuse_read next_known
  reuse_read-RollsBack d s (failed c) p f = (p.0, f, omega (arith, p.1, p.2))
  reuse_read-RollsBack d s (done current) p f =
      next_known-RollsBack d s current (read_uint32 current 8) (read_uint32-IsNoError current 8) p

  reuse_page-RollsBack :
      (d : Disk api)
      → 0 < d.free_page_count
      → d.free_page_count < u32_mod
      → RollsBack api d (reuse_page api d.first_free_page_id d)
  unfolding reuse_page
  reuse_page-RollsBack d pos h =
      let id = d.first_free_page_id in
      let taken : Disk api = record d { free_page_count = d.free_page_count - 1 } in
      let start : Taken d taken = (refl, omega arith, h) in
      attempt_cases (RollsBack api d) (read_page_at api id) taken (reuse_read api id)
        (λ a t e.
          let s = read_landed api id taken _ t e in
          reuse_read-RollsBack d t (done a) (Taken-Same d taken t start s) s.1)
        (λ c t e.
          let s = read_landed api id taken _ t e in
          reuse_read-RollsBack d t (failed c) (Taken-Same d taken t start s) s.1)
        (λ t e. tt)

  bounded :
      (d : Disk api)
      → d.page_count < u32_mod
      → (d.page_count == invalid_page_id) ≡ false
      → d.page_count + 1 < u32_mod
  bounded d h e = ground arith

  choose_page-RollsBack :
      (d : Disk api)
      → d.page_count < u32_mod
      → d.free_page_count < u32_mod
      → RollsBack api d (choose_page api d)
  unfolding choose_page
  choose_page-RollsBack d pages free = elim (Bool-cases (ltb 0 d.free_page_count)) [
    | inl some_free ↦ rw some_free (reuse_page-RollsBack d (ltb→lt _ _ some_free) free)
    | inr none_free ↦ elim (Bool-cases (d.page_count == invalid_page_id)) [
      | inl full ↦ rw (none_free, full) (refl, refl, refl)
      | inr e ↦ rw (none_free, e) (extend_file-RollsBack d d.page_count (bounded d pages e))
    ]
  ]

  allocate_page-RollsBack :
      (d : Disk api)
      → d.page_count < u32_mod
      → d.free_page_count < u32_mod
      → RollsBack api d (allocate_page api d)
  unfolding allocate_page
  allocate_page-RollsBack d pages free =
      then_RollsBack api d d (ensure_open api) _ (refl, refl, refl) (ensure_open-Same api d)
        (λ u s p. RollsBack-Same api d s _ p (choose_page-RollsBack s (rw p.0 pages) (rw p.2 free)))

  -- Whatever the file does: if allocatePage fails and the page count and the free page count are
  -- 32-bit numbers, the page count, the first free page and the free page count are as they were
  -- before the call.
  pub allocate_page-Same :
      (d e : Disk api) (c : StatusCode)
      → d.page_count < u32_mod
      → d.free_page_count < u32_mod
      → allocate_page api d ≡ (err c, e)
      → Same api d e
  allocate_page-Same d e c pages free r =
      subst (RollsBack api d) r (allocate_page-RollsBack d pages free)
