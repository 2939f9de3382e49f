-- ===== src/Buffer/BufferPool/Failing.antt =====
-- fetchPage and newPage, when they fail.
use relational_db_engine.Common.{
  ℕ, ◌<◌, ◌≡◌, refl, subst, none, some, Option, get_elem?, leb, false, Option-cases, inl, inr,
  arith,
}
use relational_db_engine.Common.Assoc
use relational_db_engine.Core.Status.{StatusCode, err}
use relational_db_engine.Core.Exec.{Tried, done, failed}
use relational_db_engine.Core.Exec.Keeping.{
  KeepsAt, FailsKeeping, KeepsAt-bind, FailsKeeping-bind, FailsKeeping-attempt,
}
use relational_db_engine.Buffer.LruReplacer
use relational_db_engine.Buffer.LruReplacer.{LruReplacer}
use relational_db_engine.Buffer.Disk.{DiskApi}
use relational_db_engine.Buffer.BufferPool.{
  Pool, AvailableSlot, on_disk, get_available_slot, restore_available_slot, or_restore, load_page,
  fetch_from, fetch_page, new_page_in_pool,
}
use relational_db_engine.Buffer.BufferPool.Pages.{
  view, get_available_slot-KeepsAt, restore_available_slot-KeepsAt,
}

module _ (api : DiskApi) where
  or_restore-KeepsAt :
      {A : Type 0} (s : AvailableSlot) (r : Tried A) (p : Pool api)
      → KeepsAt (view api) (or_restore api s r) p
  unfolding or_restore
  or_restore-KeepsAt s (done a) p = refl
  or_restore-KeepsAt s (failed c) p =
      KeepsAt-bind (view api) p (restore_available_slot api s)
        (restore_available_slot-KeepsAt api s p) _ (λ u t q e. refl)

  load_page-FailsKeeping : (id : ℕ) (p : Pool api) → FailsKeeping (view api) p (load_page api id p)
  unfolding load_page
  load_page-FailsKeeping id p =
      FailsKeeping-bind (view api) p (get_available_slot api) (get_available_slot-KeepsAt api p) p
        refl _
        λ s p1 q1.
          FailsKeeping-attempt (view api) p1 (on_disk api (api.read_page id)) refl p q1 _ λ r p2 q2.
            FailsKeeping-bind (view api) p2 (or_restore api s r) (or_restore-KeepsAt s r p2) p q2 _
              λ bytes p3 q3. elim (Option-cases (get_elem? p3.pages s.slot_id)) [
                | inl gone ↦ rw gone tt
                | inr (page, e) ↦ rw e tt
              ]

  new_page-FailsKeeping : (p : Pool api) → FailsKeeping (view api) p (new_page_in_pool api p)
  unfolding new_page_in_pool
  new_page-FailsKeeping p =
      FailsKeeping-bind (view api) p (get_available_slot api) (get_available_slot-KeepsAt api p) p
        refl _
        λ s p1 q1.
          FailsKeeping-attempt (view api) p1 (on_disk api api.allocate_page) refl p q1 _ λ r p2 q2.
            FailsKeeping-bind (view api) p2 (or_restore api s r) (or_restore-KeepsAt s r p2) p q2 _
              λ id p3 q3. elim (Option-cases (get_elem? p3.pages s.slot_id)) [
                | inl gone ↦ rw gone tt
                | inr (page, e) ↦ rw e tt
              ]

  fetch_from-FailsKeeping :
      (id : ℕ) (found : Option ℕ) (p : Pool api)
      → ((slot : ℕ) → found ≡ some slot → slot < p.replacer.capacity)
      → FailsKeeping (view api) p (fetch_from api id found p)
  unfolding fetch_from LruReplacer.pin
  fetch_from-FailsKeeping id none p h = load_page-FailsKeeping id p
  fetch_from-FailsKeeping id (some slot) p h =
      let below : leb p.replacer.capacity slot ≡ false = not_leb _ _ (h slot refl) in
      elim (Option-cases (get_elem? p.pages slot)) [
        | inl gone ↦ rw gone tt
        | inr (page, e) ↦ rw (e, below) tt
      ]
    where
      not_leb : (a b : ℕ) → b < a → leb a b ≡ false
      not_leb a b l = ground arith

  -- Whatever the disk does: if fetchPage fails, on a page that is not in the pool or in a slot below
  -- the capacity of the replacer, then every page of the pool keeps its id, its bytes and its pin
  -- count.
  pub fetch_page-pages :
      (p e : Pool api) (id : ℕ) (c : StatusCode)
      → ((slot : ℕ) → Assoc.find id p.page_slot ≡ some slot → slot < p.replacer.capacity)
      → fetch_page api id p ≡ (err c, e)
      → view api e ≡ view api p
  unfolding fetch_page
  fetch_page-pages p e id c h r =
      subst (FailsKeeping (view api) p) r
        (fetch_from-FailsKeeping id (Assoc.find id p.page_slot) p h)

  -- Whatever the disk does: if newPage fails, then every page of the pool keeps its id, its bytes
  -- and its pin count.
  pub new_page_in_pool-pages :
      (p e : Pool api) (c : StatusCode)
      → new_page_in_pool api p ≡ (err c, e)
      → view api e ≡ view api p
  new_page_in_pool-pages p e c r = subst (FailsKeeping (view api) p) r (new_page-FailsKeeping p)
